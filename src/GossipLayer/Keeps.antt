-- ===== src/GossipLayer/Keeps.antt =====
-- A property of the state that `run` in src/network_layer.rs keeps: what its loop does to the swarm, to
-- the list of peers and to the ADKG node, and rules from which every event keeps the property.
use mpc_node.Common.{
  ℕ, ◌≡◌, String, Option, none, some, Option-cases, inl, inr, List, [], ◌∷◌, ◌++◌,
}
use mpc_node.Common.Keeps.{Keeps, Keeps-bind, Keeps-and_then, Keeps-or_fail}
use mpc_node.Crypto.{Curve}
use mpc_node.Wire.{Json, Bytes}
use mpc_node.Rpc.{PeerId}
use mpc_node.Adkg
use mpc_node.Adkg.{AdkgMessage}
use mpc_node.GossipLayer.{
  Behaviour, gossip, Event, line, discovered, expired, gossip_message, new_listen_addr, other,
  World, retain_others, on_adkg, publish_line, add_peers, remove_peers, handle_gossip, handle_event,
  run_loop, subscribe_to, listen_to, prepare, run,
}

module _ (c : Curve) (b : Behaviour) (json : Json (AdkgMessage c)) (Inv : World c b → Type 0) where
  -- What the loop does keeps Inv.
  pub record LoopKept : Type 0 where
    pub published :
        (w : World c b) (swarm : b.Swarm) (topic : String) (bytes : Bytes)
        → b.publish w.swarm topic bytes ≡ some swarm
        → Inv w
        → Inv (record w { swarm = swarm })
    pub polled :
        (w : World c b) (event : Event) → Inv w → Inv (record w { swarm = b.poll w.swarm event })
    pub added :
        (w : World c b) (p : PeerId)
        → Inv w
        → Inv (record w {
          peer_list = retain_others p w.peer_list ++ p ∷ [];
          swarm = b.add_explicit_peer w.swarm p;
        })
    pub removed :
        (w : World c b) (p : PeerId)
        → Inv w
        → Inv (record w {
          peer_list = retain_others p w.peer_list;
          swarm = b.remove_explicit_peer w.swarm p;
        })
    pub handled :
        (msg : AdkgMessage c)
        → Keeps Inv (on_adkg c b json (Adkg.handle_message c (gossip b) json msg))

  -- What goes before the loop keeps Inv.
  pub record StartKept (rng : ℕ → c.Scalar) : Type 0 where
    pub subscribed :
        (w : World c b) (swarm : b.Swarm) (topic : String)
        → b.subscribe w.swarm topic ≡ some swarm
        → Inv w
        → Inv (record w { swarm = swarm })
    pub listened :
        (w : World c b) (swarm : b.Swarm) (address : b.Multiaddr)
        → b.listen_on w.swarm address ≡ some swarm
        → Inv w
        → Inv (record w { swarm = swarm })
    pub dealt : Keeps Inv (on_adkg c b json (Adkg.start_adkg c (gossip b) json rng))

  module _ (kept : LoopKept) where
    open kept use {published, polled, added, removed, handled}

    handle_gossip-Keeps : (o : Option (AdkgMessage c)) → Keeps Inv (handle_gossip c b json o)
    unfolding handle_gossip
    handle_gossip-Keeps none w h = h
    handle_gossip-Keeps (some msg) w h = handled msg w h

    publish_line-Keeps : (bytes : Bytes) → Keeps Inv (publish_line c b json bytes)
    unfolding publish_line
    publish_line-Keeps bytes w h = elim (Option-cases (b.publish w.swarm "test-net" bytes)) [
      | inl e ↦ rw (e, publish_line) h
      | inr (swarm, e) ↦ rw (e, publish_line) (published w swarm "test-net" bytes e h)
    ]

    add_peers-Keeps : (list : List (PeerId × String)) → Keeps Inv (add_peers c b json list)
    unfolding add_peers
    add_peers-Keeps [] w h = h
    add_peers-Keeps ((p, address) ∷ rest) w h = add_peers-Keeps rest _ (added w p h)

    remove_peers-Keeps : (list : List (PeerId × String)) → Keeps Inv (remove_peers c b json list)
    unfolding remove_peers
    remove_peers-Keeps [] w h = h
    remove_peers-Keeps ((p, address) ∷ rest) w h = remove_peers-Keeps rest _ (removed w p h)

    pub handle_event-Keeps : (event : Event) → Keeps Inv (handle_event c b json event)
    unfolding handle_event
    handle_event-Keeps (line bytes) w h = publish_line-Keeps bytes w h
    handle_event-Keeps (discovered list) w h = add_peers-Keeps list w h
    handle_event-Keeps (expired list) w h = remove_peers-Keeps list w h
    handle_event-Keeps (gossip_message peer_id bytes) w h =
        handle_gossip-Keeps (json.from_slice bytes) w h
    handle_event-Keeps (new_listen_addr address) w h = h
    handle_event-Keeps other w h = h

    pub run_loop-Keeps : (events : List Event) → Keeps Inv (run_loop c b json events)
    unfolding run_loop
    run_loop-Keeps [] w h = h
    run_loop-Keeps (event ∷ events) w h =
        let next : World c b = record w { swarm = b.poll w.swarm event } in
        Keeps-and_then Inv (handle_event c b json event next) (λ _. run_loop c b json events)
          (handle_event-Keeps event next (polled w event h)) (λ _ e. run_loop-Keeps events)

  module _ (rng : ℕ → c.Scalar) (kept : StartKept rng) where
    open kept use {subscribed, listened, dealt}

    subscribe_to-Keeps : (topic : String) → Keeps Inv (subscribe_to c b json topic)
    unfolding subscribe_to
    subscribe_to-Keeps topic w h =
        Keeps-or_fail Inv (b.subscribe w.swarm topic) "subscription failed" _ w h
          (λ swarm e. subscribed w swarm topic e h)

    listen_to-Keeps : (text : String) → Keeps Inv (listen_to c b json text)
    unfolding listen_to
    listen_to-Keeps text w h =
        Keeps-or_fail Inv (b.parse_multiaddr text) "invalid multiaddr" _ w h (λ address _.
          Keeps-or_fail Inv (b.listen_on w.swarm address) "listening failed" _ w h
            (λ swarm e. listened w swarm address e h))

    pub prepare-Keeps : Keeps Inv (prepare c b json rng)
    unfolding prepare
    prepare-Keeps =
        Keeps-bind Inv (subscribe_to c b json "test-net") _ (subscribe_to-Keeps "test-net") (λ _.
          Keeps-bind Inv (subscribe_to c b json "/adkg/1.0.0") _ (subscribe_to-Keeps "/adkg/1.0.0")
            (λ _.
              Keeps-bind Inv (listen_to c b json "/ip4/0.0.0.0/udp/0/quic-v1") _
                (listen_to-Keeps "/ip4/0.0.0.0/udp/0/quic-v1")
                (λ _.
                  Keeps-bind Inv (listen_to c b json "/ip4/0.0.0.0/tcp/0") _
                    (listen_to-Keeps "/ip4/0.0.0.0/tcp/0") (λ _. dealt))))

  -- Inv holds after `run` where it holds at the start of it.
  pub run-Keeps :
      (node_id : String) (n t idx : ℕ) (rng : ℕ → c.Scalar) (swarm : b.Swarm) (events : List Event)
      → LoopKept
      → StartKept rng
      → Inv (record { node = Adkg.new c node_id n t idx; swarm = swarm; peer_list = [] })
      → Inv (run c b json node_id n t idx rng swarm events).1
  unfolding run
  run-Keeps node_id n t idx rng swarm events kept start =
      Keeps-bind Inv (prepare c b json rng) (λ _. run_loop c b json events)
        (prepare-Keeps rng start) (λ _. run_loop-Keeps kept events) _
