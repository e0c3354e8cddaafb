-- ===== src/Startup/Main.antt =====
-- The node that src/main.rs runs, from the start of the program on.
use mathlib.Core.Path.{subst}
use mpc_node.Common.{
  ℕ, ◌≡◌, sym, ap, ◌∙◌, String, List, map, none, some, inl, inr, Outcome, ok, All,
}
use mpc_node.Common.Keeps.{Keeps-or_fail, Keeps-unwrap}
use mpc_node.Common.Parse.{parse_usize}
use mpc_node.Crypto.{Curve}
use mpc_node.Wire.{Bytes}
use mpc_node.Dkg
use mpc_node.Swarm.{Libraries, Tracing}
use mpc_node.Network.{Crates, NetworkLayer, World, SwarmEvent, Input, swarm_event}
use mpc_node.Network.EventLoop.{run}
use mpc_node.Network.Setup.{SwarmBuilder, Started, start}
use mpc_node.Network.Startup.{IsUntouched, left_by, start-cases}
use mpc_node.Startup.{main_layer, Program, main, IsDistribution, ignores_each}

module _ (c : Curve) (E : Type 0) (x : Crates c) (l : Libraries)
    (builder : SwarmBuilder c l x.p2p) where
  -- Gossip messages as inputs of the loop.
  abbrev pub gossiped : List Bytes → List (Input c)
  gossiped = map (λ bytes. swarm_event (SwarmEvent.gossipsub_message bytes))

  module _ (key : l.Keypair) (secret_key label : Bytes) (args : List String) (env : E)
      (rng : ℕ → ℕ → c.Scalar) (messages : List Bytes) (named : parse_usize (l.peer_id key) ≡ none)
      (distributions : All (IsDistribution c E x) messages) where
    abbrev first_layer : NetworkLayer c E
    first_layer = main_layer c E x (l.peer_id key) secret_key label

    abbrev first : Started c E x
    first = record { layer = first_layer; env = env; swarm = none }

    ignores_all :
        (w : World c E x)
        → IsUntouched c E x l builder first_layer env w.layer w.env
        → run c E x rng (gossiped messages) w ≡ (ok tt, w)
    ignores_all w ((topics, e), e') =
        subst
          (λ (y : NetworkLayer c E).
            run c E x rng (gossiped messages) (record w { layer = y })
            ≡ (ok tt, record w { layer = y }))
          (sym e)
          (ignores_each c E x (record w { layer = record first_layer { topics = topics } })
            (Dkg.new c (l.peer_id key) 3 5) rng messages named distributions)

    start-first :
        let end = start c E x l builder key args rng (gossiped messages) first in
        IsUntouched c E x l builder first_layer env end.1.layer end.1.env
    start-first = elim (start-cases c E x l builder key args rng (gossiped messages) first) [
      | inl (ended, untouched) ↦ untouched
      | inr (w, ready, same, e) ↦
          let untouched : IsUntouched c E x l builder first_layer env w.layer w.env =
            ((_, ready.kept), same) in
          subst
            (λ (r : Outcome (Unit {0}) × Started c E x).
              IsUntouched c E x l builder first_layer env r.1.layer r.1.env)
            (sym (e ∙ ap (left_by c E x l builder) (ignores_all w untouched))) untouched
    ]

    abbrev IsAsMade : NetworkLayer c E → Type 0
    IsAsMade layer = layer ≡ record first_layer { topics = layer.topics }

    as_made :
        {layer : NetworkLayer c E}
        → (topics : List String) × (layer ≡ record first_layer { topics = topics })
        → IsAsMade layer
    as_made (topics, e) =
        e
        ∙ ap (λ (t : List String). record first_layer { topics = t })
            (sym (ap (λ (y : NetworkLayer c E). y.topics) e))

    abbrev Ignored : (t : Tracing) → Program c E x t → Type 0
    Ignored t s = (st : Started c E x) → s.started ≡ some st → IsAsMade st.layer

    -- The program of src/main.rs under a key whose peer id is no decimal number, where nothing has been
    -- started before: whatever is on the command line, however logging and the start go, and whatever
    -- share distributions with ordinary indices come in then, the layer that it has started, if it
    -- has got so far, is as it was made, but for its list of topics: no share is stored and nothing
    -- waits to be sent.
    pub main-ignores :
        (t : Tracing) (log_name : String) (s : Program c E x t)
        → s.started ≡ none
        → (st : Started c E x)
        → (main c E x l builder t log_name key secret_key label args env rng
            (gossiped messages)
            s).1.started
          ≡ some st
        → st.layer ≡ record first_layer { topics = st.layer.topics }
    unfolding main
    main-ignores t log_name s none_yet =
        Keeps-unwrap (Ignored t) (t.rolling_never "logs" log_name) _ s (λ st e. cc)
          (λ appender _.
            Keeps-or_fail (Ignored t) (t.parse_filter "") "filter" _ s (λ st e. cc)
              (λ filter _.
                Keeps-unwrap (Ignored t) (t.try_init s.process) _ s (λ st e. cc)
                  (λ process _. λ st e.
                    let came : (start c E x l builder key args rng (gossiped messages) first).1
                        ≡ st =
                      cc in
                    subst (λ (st : Started c E x). IsAsMade st.layer) came
                      (as_made start-first.0))))
