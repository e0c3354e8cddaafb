-- ===== src/Types/RoundTrip.antt =====
-- What src/types/bls.rs and src/types/p2p.rs write, they read back, or do not.
use mpc_node.Common.{
  ℕ, ◌≡◌, ◌≢◌, ◌↔◌, refl, sym, ap, ◌∙◌, Option, some, List, [], ◌∷◌, ◌++◌, map, length, ok, err,
  arith,
}
use mpc_node.Wire.{Bytes}
use mpc_node.Types.Codec.{
  Encoding, ok_or, decode, read_elements, prepend, serialize_g1, visit_bytes_g1, visit_seq_g1,
  serialize_scalar, visit_bytes_scalar, visit_seq_scalar, serialize_peer_id, visit_bytes_peer_id,
}

-- The elements that come first are read, whatever follows them.
read_elements-append :
    (v : Bytes) (rest : List (Option ℕ)) → read_elements (length v) (map some v ++ rest) ≡ ok v
unfolding read_elements
read_elements-append [] rest = refl
read_elements-append (b ∷ v) rest = ap (prepend b) (read_elements-append v rest)

read_at :
    (n : ℕ) (v : Bytes) (rest : List (Option ℕ))
    → length v ≡ n
    → read_elements n (map some v ++ rest) ≡ ok v
read_at n v rest h =
    ap (λ (k : ℕ). read_elements k (map some v ++ rest)) (sym h) ∙ read_elements-append v rest

module _ {A : Type 0} (enc : Encoding A) where
  -- A point whose encoding has its 48 bytes is read back from them: from a byte string, and from a
  -- sequence of numbers, where what stands behind the 48th is not looked at.
  pub visit-serialize_g1 :
      (point : A) (rest : List (Option ℕ))
      → length (serialize_g1 enc point) ≡ 48
      → (visit_bytes_g1 enc (serialize_g1 enc point) ≡ ok point)
        × (visit_seq_g1 enc (map some (serialize_g1 enc point) ++ rest) ≡ ok point)
  unfolding visit_bytes_g1 visit_seq_g1 serialize_g1
  visit-serialize_g1 point rest h = (
    ground (arith, enc.from_bytes-to_bytes point, h),
    ap (decode enc.from_bytes "invalid G1Affine point") (read_at 48 (enc.to_bytes point) rest h)
        ∙ ap (λ o. ok_or o "invalid G1Affine point") (enc.from_bytes-to_bytes point),
  )

  -- A scalar whose encoding has its 32 bytes is read back from them: from a byte string, and from
  -- a sequence of numbers, where what stands behind the 32nd is not looked at.
  pub visit-serialize_scalar :
      (scalar : A) (rest : List (Option ℕ))
      → length (serialize_scalar enc scalar) ≡ 32
      → (visit_bytes_scalar enc (serialize_scalar enc scalar) ≡ ok scalar)
        × (visit_seq_scalar enc (map some (serialize_scalar enc scalar) ++ rest) ≡ ok scalar)
  unfolding visit_bytes_scalar visit_seq_scalar serialize_scalar
  visit-serialize_scalar scalar rest h = (
    ground (arith, enc.from_bytes-to_bytes scalar, h),
    ap (decode enc.from_bytes "invalid Scalar value") (read_at 32 (enc.to_bytes scalar) rest h)
        ∙ ap (λ o. ok_or o "invalid Scalar value") (enc.from_bytes-to_bytes scalar),
  )

  -- Bytes of any other number are refused before the crate sees them.
  pub visit_bytes_refuses :
      (v : Bytes)
      → (length v ≢ 48 → visit_bytes_g1 enc v ≡ err "invalid length for G1Affine")
        × (length v ≢ 32 → visit_bytes_scalar enc v ≡ err "invalid length for Scalar")
  unfolding visit_bytes_g1 visit_bytes_scalar
  visit_bytes_refuses v = (λ h. ground (arith, h), λ h. ground (arith, h))

  -- A peer id is read back from what was written exactly when its bytes are 48 in number.
  pub visit_bytes-serialize_peer_id :
      (peer_id : A)
      → (visit_bytes_peer_id enc (serialize_peer_id enc peer_id) ≡ ok peer_id)
        ↔ (length (serialize_peer_id enc peer_id) ≡ 48)
  unfolding visit_bytes_peer_id serialize_peer_id
  visit_bytes-serialize_peer_id peer_id =
      (λ h. ground (arith, h), λ h. ground (arith, h, enc.from_bytes-to_bytes peer_id))
