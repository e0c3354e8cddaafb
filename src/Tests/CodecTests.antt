-- ===== src/Tests/CodecTests.antt =====
-- The theorems on src/types, src/consensus and src/commands, applied at concrete inputs.
use mpc_node.Common.{ℕ, ◌≡◌, refl, [], ◌∷◌, ◌++◌, ◌↔◌, none, some, ok, err, length, map}
use mpc_node.Types.Codec.{
  serialize_g1, visit_bytes_g1, visit_seq_g1, serialize_peer_id, visit_bytes_peer_id,
}
use mpc_node.Types.RoundTrip.{visit-serialize_g1, visit_bytes-serialize_peer_id}
use mpc_node.Types.{GossipsubMessage, sign_message}
use mpc_node.Consensus
use mpc_node.Consensus.{
  ConsensusNode, generate_vrf_proof, verify_vrf_proof, update_state, get_state,
}
use mpc_node.Commands.{Handler}
use mpc_node.Crypto.Small.{small}
use mpc_node.Tests.Fixtures.{padded, identity_hash}

g1_read_back :
    (visit_bytes_g1 (padded 47) (serialize_g1 (padded 47) 5) ≡ ok 5)
    × (visit_seq_g1 (padded 47) (map some (serialize_g1 (padded 47) 5) ++ none ∷ []) ≡ ok 5)
unfolding serialize_g1
g1_read_back = visit-serialize_g1 (padded 47) 5 (none ∷ []) refl

-- An encoding of 38 bytes, as an Ed25519 peer id has.
peer_id_read_back :
    (visit_bytes_peer_id (padded 37) (serialize_peer_id (padded 37) 5) ≡ ok 5)
    ↔ (length (serialize_peer_id (padded 37) 5) ≡ 48)
peer_id_read_back = visit_bytes-serialize_peer_id (padded 37) 5

abbrev prover : ConsensusNode
prover = Consensus.new identity_hash (1 ∷ []) (2 ∷ [])

abbrev verifier : ConsensusNode
verifier = Consensus.new identity_hash (3 ∷ []) (2 ∷ [])

-- A handler that counts its calls.
abbrev counting : Handler ℕ
counting msg n = (ok tt, ℕ.suc n)

abbrev refusing : Handler ℕ
refusing msg n = (err "refused", n)

abbrev sent : GossipsubMessage small
sent = GossipsubMessage.command (sign_message (1 ∷ []))
