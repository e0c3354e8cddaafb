-- ===== src/Consensus/Vrf.antt =====
-- What the VRF and the state of src/consensus/mod.rs promise.
use mpc_node.Common.{String, true, some, ◌≡◌, ◌↔◌, refl, if◌then◌else◌, str_eq}
use mpc_node.Common.HashMap.{lookup-insert}
use mpc_node.Wire.{Bytes}
use mpc_node.Types.{VrfOutput}
use mpc_node.Consensus.{
  Blake3, ConsensusNode, generate_vrf_proof, verify_vrf_proof, update_state, get_state,
}

module _ (b : Blake3) where
  -- Every node accepts what any node generated for the same input.
  pub verify_vrf_proof-generate_vrf_proof :
      (prover verifier : ConsensusNode) (input : Bytes)
      → verify_vrf_proof b verifier input (generate_vrf_proof b prover input) ≡ true
  unfolding verify_vrf_proof generate_vrf_proof
  verify_vrf_proof-generate_vrf_proof prover verifier input =
      (b.hash_eq_iff (b.hash input) (b.hash input)).1 refl

  -- The verification looks at the public hash of the input alone: with that hash, any bytes pass
  -- for a proof, whoever made them and whatever the keys are.
  pub verify_vrf_proof_iff :
      (verifier : ConsensusNode) (input : Bytes) (output : VrfOutput)
      → (verify_vrf_proof b verifier input output ≡ true) ↔ (output.hash ≡ b.hash input)
  unfolding verify_vrf_proof
  verify_vrf_proof_iff verifier input output = b.hash_eq_iff output.hash (b.hash input)

-- A value that is written is what is read at its key; every other key reads as before.
pub get_state-update_state :
    (node : ConsensusNode) (key other : String) (value : Bytes)
    → get_state other (update_state key value node)
      ≡ (if str_eq key other then some value else get_state other node)
unfolding get_state update_state
get_state-update_state node key other value = lookup-insert key other value node.state
