-- ===== src/GossipLayer/Restart.antt =====
-- A second call in one process of `run` in src/network_layer.rs and in src/network_layer_bkp.rs.
use mathlib.Core.Path.{subst}
use mpc_node.Common.{ℕ, ◌≡◌, refl, sym, ap, arith, none, Option-cases, inl, inr, List, err}
use mpc_node.Common.Keeps.{Keeps-step}
use mpc_node.Crypto.{Curve}
use mpc_node.Wire.{Json}
use mpc_node.Adkg.{AdkgMessage}
use mpc_node.Swarm.{Libraries, Tracing, build_gossipsub, build_config}
use mpc_node.GossipLayer.{Behaviour, Event}
use mpc_node.GossipLayer.Setup.{
  SwarmBuilder, Program, build_swarm, run_on, launch, build_swarm_earlier, launch_earlier,
}
use mpc_node.GossipLayer.Identity.{build_swarm-state}

module _ (c : Curve) (b : Behaviour) (json : Json (AdkgMessage c)) (l : Libraries) (t : Tracing)
    (builder : SwarmBuilder l b) where
  abbrev IsLogging : Program c b t → Type 0
  IsLogging s = t.try_init s.process ≡ none

  refused_launch :
      (n threshold idx : ℕ) (key : l.Keypair) (rng : ℕ → c.Scalar) (events : List Event)
      (s : Program c b t)
      → IsLogging s
      → launch c b json l t builder n threshold idx key rng events s
        ≡ (err "a global default trace dispatcher has already been set", s)
  unfolding launch
  refused_launch n threshold idx key rng events s e = rw e refl

  launch-IsLogging :
      (n threshold idx : ℕ) (key : l.Keypair) (rng : ℕ → c.Scalar) (events : List Event)
      (s : Program c b t)
      → IsLogging (launch c b json l t builder n threshold idx key rng events s).1
  unfolding launch run_on
  launch-IsLogging n threshold idx key rng events s = elim (Option-cases (t.try_init s.process)) [
    | inl e ↦
        subst IsLogging (ap (λ r. r.1) (sym (refused_launch n threshold idx key rng events s e))) e
    | inr (process, e) ↦ rw e (
        let s' : Program c b t = record s { process = process } in
        Keeps-step IsLogging (build_swarm c b json l t builder key s') _
          (subst IsLogging (sym (build_swarm-state c b json l t builder key s'))
            (t.try_init-once s.process process e))
          (λ swarm built.
            subst IsLogging (sym (build_swarm-state c b json l t builder key s'))
              (t.try_init-once s.process process e)))
  ]

  -- However a call of `run` of src/network_layer.rs has ended, a second call in the same process ends by
  -- an error and changes nothing. The outcome of `run` of src/network_layer_bkp.rs does not depend
  -- on what the process has done before.
  pub launch-again :
      (n n' threshold threshold' idx idx' : ℕ) (key key' new_key : l.Keypair)
      (rng rng' : ℕ → c.Scalar) (events events' : List Event) (s : Program c b t)
      → let once = (launch c b json l t builder n threshold idx key rng events s).1 in
        (launch c b json l t builder n' threshold' idx' key' rng' events' once
          ≡ (err "a global default trace dispatcher has already been set", once))
        × ((launch_earlier c b json l t builder n' threshold' idx' key' new_key rng' events' once).0
            ≡ (launch_earlier c b json l t builder n' threshold' idx' key' new_key rng' events'
                s).0)
  unfolding launch_earlier build_swarm_earlier build_gossipsub build_config run_on
  launch-again n n' threshold threshold' idx idx' key key' new_key rng rng' events events' s = (
    refused_launch n' threshold' idx' key' rng' events' _
        (launch-IsLogging n threshold idx key rng events s),
    ground arith,
  )
