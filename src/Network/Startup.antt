-- ===== src/Network/Startup.antt =====
-- How `start` of src/network/mod.rs goes on: before its loop, and with it.
use mathlib.Core.Path.{subst}
use mpc_node.Common.{
  ℕ, ◌≡◌, ◌≢◌, refl, sym, ap, ◌∙◌, arith, ◌⊎◌, String, some, inl, inr, List, [], ◌∷◌, ◌++◌, Outcome,
  ok, Io, get_elem?, ◌>>◌, Outcome-cases, and_then-failed, and_then-returned, leb, length,
}
use mpc_node.Common.Keeps.{Keeps, Keeps-bind, Keeps-or_fail, Keeps-when, Keeps-unwrap}
use mpc_node.Crypto.{Curve}
use mpc_node.Swarm.{Libraries, build_gossipsub, build_config}
use mpc_node.Network.{Crates, NetworkLayer, World, Input}
use mpc_node.Network.EventLoop.{subscribe_all, subscribe_to_default_topics, run}
use mpc_node.Network.Setup.{
  SwarmBuilder, Started, build_swarm, listen_to, dial_argument, prepare, on_world, start,
}
use mpc_node.Network.Ready.{IsReady, default_topics, prepare-ok}

module _ (c : Curve) (E : Type 0) (x : Crates c) (l : Libraries)
    (builder : SwarmBuilder c l x.p2p) where
  open builder use {parse_multiaddr, status}

  -- Nothing of the layer but its topics has changed.
  abbrev pub IsUntouched : NetworkLayer c E → E → NetworkLayer c E → E → Type 0
  IsUntouched layer env layer' env' =
      ((topics : List String) × (layer' ≡ record layer { topics = topics })) × (env' ≡ env)

  module _ (layer : NetworkLayer c E) (env : E) where
    abbrev Untouched : World c E x → Type 0
    Untouched w = IsUntouched layer env w.layer w.env

    listen_to-Keeps : (text : String) → Keeps Untouched (listen_to c E x l builder text)
    unfolding listen_to
    listen_to-Keeps text w h =
        Keeps-or_fail Untouched (parse_multiaddr text) "invalid multiaddr" _ w h (λ address _.
          Keeps-or_fail Untouched (builder.listen_on w.swarm address) "listening failed" _ w h
            (λ s _. h))

    dial_argument-Keeps :
        (args : List String) → Keeps Untouched (dial_argument c E x l builder args)
    unfolding dial_argument
    dial_argument-Keeps args w h = Keeps-when Untouched (leb 2 (length args)) _ w h (λ _.
        Keeps-unwrap Untouched (get_elem? args 1) _ w h (λ text _.
          Keeps-or_fail Untouched (parse_multiaddr text) "invalid multiaddr" _ w h (λ address _.
            Keeps-or_fail Untouched (builder.dial w.swarm address) "dialling failed" _ w h
              (λ s _. h))))

    subscribe_all-Keeps : (topics : List String) → Keeps Untouched (subscribe_all c E x topics)
    unfolding subscribe_all
    subscribe_all-Keeps [] w h = h
    subscribe_all-Keeps (topic ∷ topics) w ((known, e), same) =
        Keeps-or_fail Untouched (x.p2p.subscribe w.swarm topic) "subscription failed" _ w
          ((known, e), same)
          (λ s _. subscribe_all-Keeps topics _ (
            (
              known ++ topic ∷ [],
              ap (λ (y : NetworkLayer c E). record y { topics = y.topics ++ topic ∷ [] }) e,
            ),
            same,
          ))

    prepare-Keeps : (args : List String) → Keeps Untouched (prepare c E x l builder args)
    unfolding prepare subscribe_to_default_topics
    prepare-Keeps args =
        Keeps-bind Untouched (listen_to c E x l builder "/ip4/0.0.0.0/tcp/0") _
          (listen_to-Keeps "/ip4/0.0.0.0/tcp/0")
          (λ _.
            Keeps-bind Untouched (listen_to c E x l builder "/ip4/0.0.0.0/udp/0/quic-v1") _
              (listen_to-Keeps "/ip4/0.0.0.0/udp/0/quic-v1")
              (λ _.
                Keeps-bind Untouched (dial_argument c E x l builder args) _
                  (dial_argument-Keeps args) (λ _. subscribe_all-Keeps default_topics)))

  build_swarm-ok :
      (key : l.Keypair) (s : Started c E x) (swarm : x.p2p.Swarm)
      → (build_swarm c E x l builder key s).0 ≡ ok swarm
      → status swarm
        ≡ record { local_peer_id = l.peer_id key; listening = []; dialled = []; subscribed = [] }
  unfolding build_swarm build_gossipsub build_config
  build_swarm-ok key s swarm h =
      grind (arith, builder.status-build, l.identity-with_tcp, l.identity-with_quic)

  build_swarm-state :
      (key : l.Keypair) (s : Started c E x) → (build_swarm c E x l builder key s).1 ≡ s
  unfolding build_swarm build_gossipsub build_config
  build_swarm-state key s = ground arith

  -- What is left of the loop.
  abbrev pub left_by : Outcome (Unit {0}) × World c E x → Outcome (Unit {0}) × Started c E x
  left_by (r, w) = (r, record { layer = w.layer; env = w.env; swarm = some w.swarm })

  abbrev Ends :
      l.Keypair
      → List String
      → (ℕ → ℕ → c.Scalar)
      → List (Input c)
      → Started c E x
      → Outcome (Unit {0}) × Started c E x
      → Type 0
  Ends key args rng inputs s end =
      ((end.0 ≢ ok tt) × IsUntouched s.layer s.env end.1.layer end.1.env)
      ⊎ ((w : World c E x) × IsReady c E x l builder key args s.layer w
          × (w.env ≡ s.env)
          × (end ≡ left_by (run c E x rng inputs w)))

  built-Ends :
      (key : l.Keypair) (args : List String) (rng : ℕ → ℕ → c.Scalar) (inputs : List (Input c))
      (s : Started c E x) (swarm : x.p2p.Swarm)
      → (build_swarm c E x l builder key s).0 ≡ ok swarm
      → Ends key args rng inputs s
          (on_world c E x l builder (prepare c E x l builder args >> run c E x rng inputs) swarm s)
  unfolding on_world
  built-Ends key args rng inputs s swarm built =
      let w : World c E x = record { layer = s.layer; swarm = swarm; env = s.env } in
      elim (Outcome-cases (prepare c E x l builder args w).0) [
        | inl (u, e) ↦
            let (ready, same) =
              prepare-ok c E x l builder key args w (build_swarm-ok key s swarm built) e in
            inr (
              (prepare c E x l builder args w).1,
              ready,
              same,
              ap left_by (
                  and_then-returned (prepare c E x l builder args w) (λ _. run c E x rng inputs) e),
            )
        | inr fails ↦
            let (state, none_yet) =
              and_then-failed (prepare c E x l builder args w) (λ _. run c E x rng inputs) fails in
            inl (
              none_yet tt,
              subst (Untouched s.layer s.env) (sym state)
                  (prepare-Keeps s.layer s.env args w ((s.layer.topics, refl), refl)),
            )
      ]

  -- `start` either ends before its loop, without a result, and has changed nothing of the layer but the
  -- topics that it lists; or it comes to its loop, and from then on it is the loop: by then its
  -- swarm has the peer id of the layer's key, listens on both addresses, has dialled the address on
  -- the command line, if there is one, and is subscribed to the four topics that the layer has
  -- added to its list.
  pub start-cases :
      (key : l.Keypair) (args : List String) (rng : ℕ → ℕ → c.Scalar) (inputs : List (Input c))
      (s : Started c E x)
      → let end = start c E x l builder key args rng inputs s in
        ((end.0 ≢ ok tt) × IsUntouched s.layer s.env end.1.layer end.1.env)
        ⊎ ((w : World c E x) × IsReady c E x l builder key args s.layer w
            × (w.env ≡ s.env)
            × (end ≡ left_by (run c E x rng inputs w)))
  unfolding start on_world
  start-cases key args rng inputs s =
      let loop : x.p2p.Swarm → Io (Started c E x) (Unit {0}) =
        on_world c E x l builder (prepare c E x l builder args >> run c E x rng inputs) in
      elim (Outcome-cases (build_swarm c E x l builder key s).0) [
        | inl (swarm, e) ↦
            subst (Ends key args rng inputs s)
              (sym (
                and_then-returned (build_swarm c E x l builder key s) loop e
                ∙ ap (loop swarm) (build_swarm-state key s)))
              (built-Ends key args rng inputs s swarm e)
        | inr fails ↦
            let (state, none_yet) =
              and_then-failed (build_swarm c E x l builder key s) loop fails in
            inl (
              none_yet tt,
              subst (λ (t : Started c E x). IsUntouched s.layer s.env t.layer t.env)
                  (sym (state ∙ build_swarm-state key s)) ((s.layer.topics, refl), refl),
            )
      ]
