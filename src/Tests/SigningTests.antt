-- ===== src/Tests/SigningTests.antt =====
-- The theorems on src/signing/mod.rs and src/frost/mod.rs, applied over the integers modulo 7.
use mpc_node.Common.{◌≡◌, ◌≢◌, refl, String, [], ◌∷◌, arith, ok, eq_iff, ◌>>◌}
use Prim.Native.Nat.{min}
use mathlib.Core.List.{Permᴰ}
use mpc_node.Common.HashMap.{HashMap}
use mpc_node.Common.RwLock.{unlocked}
use mpc_node.Channel.{channel}
use mpc_node.Crypto.Field.{sum}
use mpc_node.Crypto.Small.{small, residue, Residue}
use mpc_node.Types.{FrostCommitment}
use mpc_node.Signing
use mpc_node.Signing.{
  SigningNode, World, get_commitments, start_signing, aggregate_signature_shares,
}
use mpc_node.Signing.Gathering.{gather, gather-perm}
use mpc_node.Frost
use mpc_node.Frost.{generate_nonces}
use mpc_node.Frost.Nonces.{sign_times, sign_times-generate_nonces}
use mpc_node.Tests.Fixtures.{no_json, draws}

abbrev signer_node : SigningNode small
signer_node = Signing.new small "a" 2 (record { index = 1; value = residue 3 }) (residue 5)

abbrev signing_world : World small
signing_world = record { node = signer_node; channel = channel }

abbrev with_signatures : HashMap Residue → World small
with_signatures m = record signing_world {
  node = record signer_node { signature_shares = unlocked m };
}

abbrev commitment_one : FrostCommitment small
commitment_one = record { d = residue 1; e = residue 2 }

abbrev one_committed : World small
one_committed = record signing_world {
  node = record signer_node { commitments = unlocked (("b", commitment_one ∷ []) ∷ []) };
}

two_of_three :
    (sign_times small 3
      (7 ∷ [])
      ("a" ∷ [])
      (generate_nonces small draws 2 (Frost.new small "a" (residue 3) (residue 5)))).0
    ≡ min 3 2
two_of_three =
    sign_times-generate_nonces small 3 2 draws (7 ∷ []) ("a" ∷ [])
      (Frost.new small "a" (residue 3) (residue 5))

b_ne_a : ◌≢◌ {A = String} "b" "a"
b_ne_a e = ground (arith, e, eq_iff "b" "a")

a_ne_b : ◌≢◌ {A = String} "a" "b"
a_ne_b e = ground (arith, e, eq_iff "a" "b")

gathered_in_two_orders :
    ((do
      gather small no_json (("a", residue 3) ∷ ("b", residue 6) ∷ [])
      aggregate_signature_shares small)
        (with_signatures [])).0
      ≡ ok (sum small (residue 3 ∷ residue 6 ∷ []))
    × ((do
      gather small no_json (("b", residue 6) ∷ ("a", residue 3) ∷ [])
      aggregate_signature_shares small)
        (with_signatures [])).0
      ≡ ok (sum small (residue 3 ∷ residue 6 ∷ []))
gathered_in_two_orders =
    gather-perm small no_json (with_signatures []) (with_signatures [])
      (("a", residue 3) ∷ ("b", residue 6) ∷ []) (("b", residue 6) ∷ ("a", residue 3) ∷ []) refl
      refl ((b_ne_a, tt), (tt, tt)) ((a_ne_b, tt), (tt, tt)) (Permᴰ.swap refl refl)
