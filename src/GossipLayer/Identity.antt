-- ===== src/GossipLayer/Identity.antt =====
-- The name of the ADKG node in src/network_layer.rs and in src/network_layer_bkp.rs, and the peer id of
-- the swarm that it speaks through.
use mathlib.Core.Path.{subst}
use mpc_node.Common.{
  ℕ, ◌≡◌, ◌≢◌, refl, sym, ◌∙◌, arith, String, none, some, List, ok, Io, true, and_then,
}
use mpc_node.Common.Keeps.{Keeps, Keeps-or_fail, Keeps-step}
use mpc_node.Crypto.{Curve}
use mpc_node.Wire.{Json}
use mpc_node.Rpc.{PeerId}
use mpc_node.Adkg
use mpc_node.Adkg.{AdkgMessage, share_ack}
use mpc_node.Adkg.Completion.{stored}
use mpc_node.Adkg.Keeps.{SendKept, handle_message-Keeps, start_adkg-Keeps}
use mpc_node.Adkg.Protocol.{proposal_of}
use mpc_node.Adkg.Start.{own_dealer}
use mpc_node.Swarm.{Libraries, Tracing, build_gossipsub, build_config}
use mpc_node.GossipLayer.{Behaviour, gossip, Event, World, on_adkg, run}
use mpc_node.GossipLayer.Keeps.{LoopKept, StartKept, run-Keeps}
use mpc_node.GossipLayer.Setup.{
  SwarmBuilder, Program, build_swarm, run_on, launch, build_swarm_earlier, launch_earlier,
}

module _ (c : Curve) (b : Behaviour) (json : Json (AdkgMessage c)) (l : Libraries)
    (builder : SwarmBuilder l b) where
  -- The node is called `name`, and its swarm has the peer id `id`.
  abbrev pub IsNamed : String → PeerId → World c b → Type 0
  IsNamed name id w = (w.node.id ≡ name) × (builder.local_peer_id w.swarm ≡ id)

  module _ (name : String) (id : PeerId) where
    abbrev Speaks : Adkg.World c (gossip b) → Type 0
    Speaks a = (a.node.id ≡ name) × (builder.local_peer_id a.swarm ≡ id)

    send_kept :
        (a : Adkg.World c (gossip b)) (msg : AdkgMessage c)
        → SendKept c (gossip b) json Speaks a msg
    send_kept a msg bytes swarm e p h =
        (h.0, builder.local-publish a.swarm swarm "/adkg/1.0.0" bytes p ∙ h.1)

    handled-IsNamed :
        (msg : AdkgMessage c)
        → Keeps (IsNamed name id) (on_adkg c b json (Adkg.handle_message c (gossip b) json msg))
    unfolding on_adkg
    handled-IsNamed msg w h =
        handle_message-Keeps c (gossip b) json Speaks msg (λ a hp. hp) (λ a key e hp. hp)
          (λ a sender_id valid e hp. hp)
          (λ a sender_id share commitments.
            send_kept
              (record a { node = stored c (gossip b) json a.node sender_id share commitments })
              (share_ack a.node.id sender_id true))
          (λ a sender_id shares commitments share e at v hp. hp)
          (record { node = w.node; swarm = w.swarm }) h

    dealt-IsNamed :
        (rng : ℕ → c.Scalar)
        → Keeps (IsNamed name id) (on_adkg c b json (Adkg.start_adkg c (gossip b) json rng))
    unfolding on_adkg
    dealt-IsNamed rng w h =
        let a : Adkg.World c (gossip b) = record { node = w.node; swarm = w.swarm } in
        start_adkg-Keeps c (gossip b) json Speaks rng a
          (send_kept a
            (proposal_of c (gossip b) json a.node.n (own_dealer c (gossip b) json a rng)))
          (λ a' hp. hp) h

    loop-IsNamed : LoopKept c b json (IsNamed name id)
    loop-IsNamed = record {
      published =
          λ w swarm topic bytes e h. (h.0, builder.local-publish w.swarm swarm topic bytes e ∙ h.1);
      polled = λ w event h. (h.0, builder.local-poll w.swarm event ∙ h.1);
      added = λ w p h. (h.0, builder.local-add w.swarm p ∙ h.1);
      removed = λ w p h. (h.0, builder.local-remove w.swarm p ∙ h.1);
      handled = handled-IsNamed;
    }

    start-IsNamed : (rng : ℕ → c.Scalar) → StartKept c b json (IsNamed name id) rng
    start-IsNamed rng = record {
      subscribed = λ w swarm topic e h. (h.0, builder.local-subscribe w.swarm swarm topic e ∙ h.1);
      listened =
          λ w swarm address e h. (h.0, builder.local-listen_on w.swarm swarm address e ∙ h.1);
      dealt = dealt-IsNamed rng;
    }

  run-IsNamed :
      (name : PeerId) (n t idx : ℕ) (rng : ℕ → c.Scalar) (swarm : b.Swarm) (events : List Event)
      → IsNamed name (builder.local_peer_id swarm) (run c b json name n t idx rng swarm events).1
  run-IsNamed name n t idx rng swarm events =
      let id = builder.local_peer_id swarm in
      run-Keeps c b json (IsNamed name id) name n t idx rng swarm events (loop-IsNamed name id)
        (start-IsNamed name id rng) (refl, refl)

module _ (c : Curve) (b : Behaviour) (json : Json (AdkgMessage c)) (l : Libraries) (t : Tracing)
    (builder : SwarmBuilder l b) where
  -- What `run` works on, if it has got so far, has this property.
  abbrev Works : (World c b → Type 0) → Program c b t → Type 0
  Works P s = (w : World c b) → s.world ≡ some w → P w

  build_swarm-local :
      (key : l.Keypair) (s : Program c b t) (swarm : b.Swarm)
      → (build_swarm c b json l t builder key s).0 ≡ ok swarm
      → builder.local_peer_id swarm ≡ l.peer_id key
  unfolding build_swarm build_gossipsub build_config
  build_swarm-local key s swarm h = grind (arith, builder.local-with_tokio_executor)

  pub build_swarm-state :
      (key : l.Keypair) (s : Program c b t) → (build_swarm c b json l t builder key s).1 ≡ s
  unfolding build_swarm build_gossipsub build_config
  build_swarm-state key s = ground arith

  build_swarm_earlier-local :
      (key : l.Keypair) (s : Program c b t) (swarm : b.Swarm)
      → (build_swarm_earlier c b json l t builder key s).0 ≡ ok swarm
      → builder.local_peer_id swarm ≡ l.peer_id key
  unfolding build_swarm_earlier build_gossipsub build_config
  build_swarm_earlier-local key s swarm h =
      grind (arith, builder.local-build, l.identity-with_tcp, l.identity-with_quic)

  build_swarm_earlier-state :
      (key : l.Keypair) (s : Program c b t) → (build_swarm_earlier c b json l t builder key s).1 ≡ s
  unfolding build_swarm_earlier build_gossipsub build_config
  build_swarm_earlier-state key s = ground arith

  module _ (name : PeerId) (id : PeerId) (n threshold idx : ℕ) (rng : ℕ → c.Scalar)
      (events : List Event) where
    abbrev Named : Program c b t → Type 0
    Named = Works (IsNamed c b json l builder name id)

    run_on-Named :
        (swarm : b.Swarm) (s : Program c b t)
        → builder.local_peer_id swarm ≡ id
        → Named (run_on c b json l t builder name n threshold idx rng events swarm s).1
    unfolding run_on
    run_on-Named swarm s e w h =
        let ended = (run c b json name n threshold idx rng swarm events).1 in
        let same : ended ≡ w = cc in
        subst (IsNamed c b json l builder name id) same (
          subst (λ i. IsNamed c b json l builder name i ended) e
            (run-IsNamed c b json l builder name n threshold idx rng swarm events))

    -- A swarm is built, and `run` goes on with it.
    built-Named :
        (m : Io (Program c b t) b.Swarm) (s : Program c b t)
        → Named s
        → (m s).1 ≡ s
        → ((swarm : b.Swarm) → (m s).0 ≡ ok swarm → builder.local_peer_id swarm ≡ id)
        → Named (and_then (m s) (run_on c b json l t builder name n threshold idx rng events)).1
    built-Named m s h e local =
        Keeps-step Named (m s) (run_on c b json l t builder name n threshold idx rng events)
          (subst Named (sym e) h) (λ swarm built. run_on-Named swarm (m s).1 (local swarm built))

  launch-IsNamed :
      (n threshold idx : ℕ) (local_key : l.Keypair) (rng : ℕ → c.Scalar) (events : List Event)
      (s : Program c b t)
      → s.world ≡ none
      → Works
          (IsNamed c b json l builder (l.peer_id local_key) (l.peer_id local_key))
          (launch c b json l t builder n threshold idx local_key rng events s).1
  unfolding launch
  launch-IsNamed n threshold idx local_key rng events s empty =
      let name = l.peer_id local_key in
      Keeps-or_fail (Named name name n threshold idx rng events) (t.try_init s.process) _ _ s
        (λ w h. cc)
        (λ process e.
          built-Named name name n threshold idx rng events
            (build_swarm c b json l t builder local_key) (record s { process = process })
            (λ w h. cc) (build_swarm-state local_key (record s { process = process }))
            (build_swarm-local local_key (record s { process = process })))

  launch_earlier-IsNamed :
      (n threshold idx : ℕ) (local_key new_key : l.Keypair) (rng : ℕ → c.Scalar)
      (events : List Event) (s : Program c b t)
      → s.world ≡ none
      → Works
          (IsNamed c b json l builder (l.peer_id local_key) (l.peer_id new_key))
          (launch_earlier c b json l t builder n threshold idx local_key new_key rng events s).1
  unfolding launch_earlier
  launch_earlier-IsNamed n threshold idx local_key new_key rng events s empty =
      let name = l.peer_id local_key in
      let s' : Program c b t = record s {
        process = elim (t.try_init s.process) [ none ↦ s.process | some process ↦ process ];
      } in
      built-Named name (l.peer_id new_key) n threshold idx rng events
        (build_swarm_earlier c b json l t builder new_key) s' (λ w h. cc)
        (build_swarm_earlier-state new_key s') (build_swarm_earlier-local new_key s')

  -- `run` of src/network_layer.rs and `run` of src/network_layer_bkp.rs with the same key, where
  -- nothing has been built before and each of them has got as far as its second half: in the first
  -- the node is called by the peer id of the swarm that it speaks through, whatever events have come
  -- and however it has ended; in the second it is not called so, where the key that the builder has
  -- drawn has another peer id.
  pub launch-named :
      (n threshold idx : ℕ) (local_key new_key : l.Keypair) (rng : ℕ → c.Scalar)
      (events : List Event) (s : Program c b t) (w w' : World c b)
      → s.world ≡ none
      → l.peer_id local_key ≢ l.peer_id new_key
      → (launch c b json l t builder n threshold idx local_key rng events s).1.world ≡ some w
      → (launch_earlier c b json l t builder n threshold idx local_key new_key rng events s).1.world
        ≡ some w'
      → (w.node.id ≡ builder.local_peer_id w.swarm) × (w'.node.id ≢ builder.local_peer_id w'.swarm)
  launch-named n threshold idx local_key new_key rng events s w w' empty apart e e' =
      let named = launch-IsNamed n threshold idx local_key rng events s empty w e in
      let other =
        launch_earlier-IsNamed n threshold idx local_key new_key rng events s empty w' e' in
      (named.0 ∙ sym named.1, λ same. apart (sym other.0 ∙ same ∙ other.1))
