-- ===== src/Network/Failures.antt =====
-- What stops the node of src/network/mod.rs: a share validation.
use mpc_node.Common.{ℕ, ◌≡◌, String, Bool, some, List, ◌∷◌, arith, blocked}
use mpc_node.Common.HashMap.{HashMap}
use mpc_node.Common.RwLock.{unlocked}
use mpc_node.Crypto.{Curve}
use mpc_node.Wire.{Bytes}
use mpc_node.Types.{share_validation, dkg}
use mpc_node.Dkg.{DkgNode}
use mpc_node.Dkg.Handlers.{handle_message_deadlock}
use mpc_node.Network.{World, Crates, SwarmEvent, Input, swarm_event}
use mpc_node.Network.Routing.{handle_gossipsub_message}
use mpc_node.Network.EventLoop.{handle_swarm_event, step, run}

module _ (c : Curve) (E : Type 0) (x : Crates c) where
  -- A share validation that reaches a node with a DKG component, whose lock on the validations is
  -- free, stops its loop for ever, whatever inputs would have come after it.
  pub run_blocks :
      (w : World c E x) (rng : ℕ → ℕ → c.Scalar) (bytes : Bytes) (rest : List (Input c))
      (node : DkgNode c) (sender to : String) (is_valid : Bool) (old : HashMap (List Bool))
      → x.json.from_slice bytes ≡ some (dkg (share_validation sender to is_valid))
      → w.layer.dkg_node ≡ some node
      → node.validations ≡ unlocked old
      → (run c E x rng (swarm_event (SwarmEvent.gossipsub_message bytes) ∷ rest) w).0 ≡ blocked
  unfolding run step handle_swarm_event handle_gossipsub_message
  run_blocks w rng bytes rest node sender to is_valid old e n free = ground (
    arith,
    e,
    n,
    handle_message_deadlock c x.json (record { node = node; channel = w.layer.message_channel })
        sender to is_valid old free,
  )
