-- ===== src/GossipLayer/PeerList.antt =====
-- The peer list that src/network_layer.rs keeps beside the explicit peers of gossipsub.
use mpc_node.Common.{
  ℕ, ◌≡◌, refl, sym, ap, ◌∙◌, String, Bool, true, false, List, [], ◌∷◌, ◌++◌, keep, length,
  length-keep_append, str_eq, eq_iff, arith, Io, if◌then◌else◌,
}
use mpc_node.Common.Keeps.{Keeps}
use mpc_node.Crypto.{Curve}
use mpc_node.Wire.{Json}
use mpc_node.Rpc.{PeerId}
use mpc_node.Adkg
use mpc_node.Adkg.{AdkgNode, AdkgMessage, share_ack}
use mpc_node.Adkg.Completion.{stored}
use mpc_node.Adkg.Keeps.{SendKept, handle_message-Keeps, start_adkg-Keeps}
use mpc_node.Adkg.Protocol.{proposal_of}
use mpc_node.Adkg.Start.{own_dealer}
use mpc_node.GossipLayer.Keeps.{LoopKept, StartKept, run-Keeps}
use mpc_node.GossipLayer.{Behaviour, gossip, Event, World, retain_others, on_adkg, run}

-- How often a peer stands in a list.
unfoldable pub occurrences : PeerId → List PeerId → ℕ
occurrences q peers = length (keep (λ p. str_eq p q) peers)

occurrences-retain_others :
    (p q : PeerId) (peers : List PeerId)
    → occurrences q (retain_others p peers) ≡ (if str_eq p q then 0 else occurrences q peers)
unfolding occurrences retain_others
occurrences-retain_others p q [] = ground arith
occurrences-retain_others p q (r ∷ peers) =
    ground (arith, eq_iff r p, eq_iff r q, eq_iff p q, occurrences-retain_others p q peers)

-- A peer that is pushed after its old entries are dropped stands in the list once.
occurrences-push :
    (p q : PeerId) (peers : List PeerId)
    → occurrences q (retain_others p peers ++ p ∷ [])
      ≡ (if str_eq p q then 1 else occurrences q peers)
unfolding occurrences
occurrences-push p q peers = ground (
  arith,
  length-keep_append (λ (r : PeerId). str_eq r q) (retain_others p peers) (p ∷ []),
  occurrences-retain_others p q peers,
)

module _ (c : Curve) (b : Behaviour) (json : Json (AdkgMessage c)) where
  -- The list names each explicit peer once, and no other peer.
  pub Mirrors : World c b → Type 0
  Mirrors w = (q : PeerId) → occurrences q w.peer_list ≡ (if b.is_explicit w.swarm q then 1 else 0)

  moved_swarm :
      (w : World c b) (node : AdkgNode c) (swarm : b.Swarm)
      → ((q : PeerId) → b.is_explicit swarm q ≡ b.is_explicit w.swarm q)
      → Mirrors w
      → Mirrors (record w { node = node; swarm = swarm })
  unfolding Mirrors
  moved_swarm w node swarm e h q = h q ∙ ap (λ (t : Bool). if t then 1 else 0) (sym (e q))

  -- Whether gossipsub has one peer among its explicit peers.
  abbrev HasPeer : PeerId → Bool → Adkg.World c (gossip b) → Type 0
  HasPeer q k a = b.is_explicit a.swarm q ≡ k

  send_kept :
      (q : PeerId) (k : Bool) (a : Adkg.World c (gossip b)) (msg : AdkgMessage c)
      → SendKept c (gossip b) json (HasPeer q k) a msg
  send_kept q k a msg bytes swarm e p h =
      b.explicit-publish a.swarm swarm "/adkg/1.0.0" bytes q p ∙ h

  -- A method of the ADKG node that only publishes.
  on_adkg-Mirrors :
      (m : Io (Adkg.World c (gossip b)) (Unit {0})) (w : World c b)
      → ((q : PeerId) (k : Bool) (a : Adkg.World c (gossip b))
          → HasPeer q k a
          → HasPeer q k (m a).1)
      → Mirrors w
      → Mirrors (on_adkg c b json m w).1
  unfolding on_adkg
  on_adkg-Mirrors m w hm h =
      let a : Adkg.World c (gossip b) = record { node = w.node; swarm = w.swarm } in
      moved_swarm w (m a).1.node (m a).1.swarm (λ q. hm q (b.is_explicit w.swarm q) a refl) h

  handled-Mirrors :
      (msg : AdkgMessage c)
      → Keeps Mirrors (on_adkg c b json (Adkg.handle_message c (gossip b) json msg))
  handled-Mirrors msg w h =
      on_adkg-Mirrors (Adkg.handle_message c (gossip b) json msg) w
        (λ q k a.
          handle_message-Keeps c (gossip b) json (HasPeer q k) msg (λ a hp. hp) (λ a key e hp. hp)
            (λ a sender_id valid e hp. hp)
            (λ a sender_id share commitments.
              send_kept q k
                (record a { node = stored c (gossip b) json a.node sender_id share commitments })
                (share_ack a.node.id sender_id true))
            (λ a sender_id shares commitments share e at v hp. hp) a)
        h

  dealt-Mirrors :
      (rng : ℕ → c.Scalar)
      → Keeps Mirrors (on_adkg c b json (Adkg.start_adkg c (gossip b) json rng))
  dealt-Mirrors rng w = on_adkg-Mirrors (Adkg.start_adkg c (gossip b) json rng) w (λ q k a.
      start_adkg-Keeps c (gossip b) json (HasPeer q k) rng a
        (send_kept q k a
          (proposal_of c (gossip b) json a.node.n (own_dealer c (gossip b) json a rng)))
        (λ a' hp. hp))

  added :
      (p : PeerId) (w : World c b)
      → Mirrors w
      → Mirrors (record w {
        peer_list = retain_others p w.peer_list ++ p ∷ [];
        swarm = b.add_explicit_peer w.swarm p;
      })
  unfolding Mirrors
  added p w h q = ground (arith, occurrences-push p q w.peer_list, b.explicit-add w.swarm p q, h q)

  removed :
      (p : PeerId) (w : World c b)
      → Mirrors w
      → Mirrors (record w {
        peer_list = retain_others p w.peer_list;
        swarm = b.remove_explicit_peer w.swarm p;
      })
  unfolding Mirrors
  removed p w h q =
      ground (arith, occurrences-retain_others p q w.peer_list, b.explicit-remove w.swarm p q, h q)

  loop-Mirrors : LoopKept c b json Mirrors
  loop-Mirrors = record {
    published = λ w swarm topic bytes e.
        moved_swarm w w.node swarm (λ q. b.explicit-publish w.swarm swarm topic bytes q e);
    polled = λ w event. moved_swarm w w.node (b.poll w.swarm event) (b.explicit-poll w.swarm event);
    added = λ w p. added p w;
    removed = λ w p. removed p w;
    handled = handled-Mirrors;
  }

  start-Mirrors : (rng : ℕ → c.Scalar) → StartKept c b json Mirrors rng
  start-Mirrors rng = record {
    subscribed = λ w swarm topic e.
        moved_swarm w w.node swarm (λ q. b.explicit-subscribe w.swarm swarm topic q e);
    listened = λ w swarm address e.
        moved_swarm w w.node swarm (λ q. b.explicit-listen_on w.swarm swarm address q e);
    dealt = dealt-Mirrors rng;
  }

  first_world :
      (node : AdkgNode c) (swarm : b.Swarm)
      → ((q : PeerId) → b.is_explicit swarm q ≡ false)
      → Mirrors (record { node = node; swarm = swarm; peer_list = [] })
  unfolding Mirrors occurrences
  first_world node swarm none_yet q = rw (none_yet q) refl

  -- Where gossipsub starts with no explicit peer, the list of peers names each explicit peer of
  -- gossipsub exactly once and nobody else, whatever events come in whatever order, and also where
  -- an error or a panic has ended the node.
  pub run-Mirrors :
      (node_id : String) (n t idx : ℕ) (rng : ℕ → c.Scalar) (swarm : b.Swarm) (events : List Event)
      → ((q : PeerId) → b.is_explicit swarm q ≡ false)
      → (q : PeerId)
      → let end = (run c b json node_id n t idx rng swarm events).1 in
        occurrences q end.peer_list ≡ (if b.is_explicit end.swarm q then 1 else 0)
  unfolding Mirrors
  run-Mirrors node_id n t idx rng swarm events none_yet =
      run-Keeps c b json Mirrors node_id n t idx rng swarm events loop-Mirrors (start-Mirrors rng)
        (first_world (Adkg.new c node_id n t idx) swarm none_yet)
