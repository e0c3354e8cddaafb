-- ===== src/Consensus.antt =====
-- src/consensus/mod.rs: the consensus node, with its VRF made of the hash functions of the crate
-- `blake3`, which are parameters.
pub mod Vrf
use mpc_node.Common.{
  ℕ, suc, String, Bool, true, false, Option, List, [], ◌∷◌, ◌==◌, ◌≡◌, ◌↔◌, Outcome, ok, Io,
}
use mpc_node.Common.HashMap.{HashMap, lookup, insert}
use mpc_node.Wire.{Bytes}
use mpc_node.Types.{VrfOutput, ConsensusMessage, proposal, vote}

-- `blake3::hash`, `blake3::keyed_hash` and the equality of hashes.
pub record Blake3 : Type 0 where
  pub hash : Bytes → Bytes
  pub keyed_hash : Bytes → Bytes → Bytes
  pub hash_eq : Bytes → Bytes → Bool
  pub hash_eq_iff : (a b : Bytes) → (hash_eq a b ≡ true) ↔ (a ≡ b)

pub record ConsensusNode : Type 0 where
  pub vrf_secret_key : Bytes
  pub vrf_public_key : Bytes
  pub state : HashMap Bytes
  pub current_round : ℕ
  pub proposals : List (ℕ × List (Bytes × VrfOutput))
  pub votes : List (ℕ × List (Bytes × List String))

module _ (b : Blake3) where
  -- `ConsensusNode::new`, with the key that the random generator filled in and the bytes of
  -- `b"vrf-public-key"`.
  abbrev pub new : Bytes → Bytes → ConsensusNode
  new secret_key label = record {
    vrf_secret_key = secret_key;
    vrf_public_key = b.keyed_hash secret_key label;
    state = [];
    current_round = 0;
    proposals = [];
    votes = [];
  }

  unfoldable pub generate_vrf_proof : ConsensusNode → Bytes → VrfOutput
  generate_vrf_proof node input = record {
    proof = b.keyed_hash node.vrf_secret_key input;
    hash = b.hash input;
  }

  unfoldable pub verify_vrf_proof : ConsensusNode → Bytes → VrfOutput → Bool
  verify_vrf_proof node input output = b.hash_eq output.hash (b.hash input)

  unfoldable pub handle_proposal : ConsensusNode → ℕ → Bytes → VrfOutput → Outcome (Unit {0})
  handle_proposal node round value vrf_proof = elim (verify_vrf_proof node value vrf_proof) [
    | true ↦ ok tt
    | false ↦ ok tt
  ]

  unfoldable pub handle_vote : ConsensusNode → ℕ → Bytes → String → Outcome (Unit {0})
  handle_vote node round proposal_hash voter = ok tt

  -- The methods take `&self`: the node is not changed.
  unfoldable pub handle_message : ConsensusMessage → Io ConsensusNode (Unit {0})
  unfolding handle_proposal handle_vote
  handle_message (proposal round value vrf_proof) node =
      (handle_proposal node round value vrf_proof, node)
  handle_message (vote round proposal_hash voter) node =
      (handle_vote node round proposal_hash voter, node)

unfoldable pub update_state : String → Bytes → ConsensusNode → ConsensusNode
update_state key value node = record node { state = insert key value node.state }

unfoldable pub get_state : String → ConsensusNode → Option Bytes
get_state key node = lookup key node.state
