-- ===== src/Types/Codec.antt =====
-- src/types/bls.rs and src/types/p2p.rs: the serde visitors of curve points, scalars and peer ids.
-- The crates' own encodings are parameters. `visit_seq` is fed by a serde `SeqAccess`: a list of
-- elements, where `none` is an element that is no byte.
use mpc_node.Common.{
  ℕ, zero, suc, String, Option, none, some, List, [], ◌∷◌, ◌==◌, if◌then◌else◌, not, ◌≡◌, length,
  Outcome, ok, err, panicked, blocked,
}
use mpc_node.Wire.{Bytes}

-- An encoding of a crate: `to_compressed` and `from_compressed`, or `to_bytes` and `from_bytes`.
-- What is read back is what was written.
pub record Encoding (A : Type 0) : Type 0 where
  pub to_bytes : A → Bytes
  pub from_bytes : Bytes → Option A
  pub from_bytes-to_bytes : (a : A) → from_bytes (to_bytes a) ≡ some a

abbrev pub ok_or : {A : Type 0} → Option A → String → Outcome A
ok_or none e = err e
ok_or (some a) e = ok a

abbrev pub prepend : ℕ → Outcome Bytes → Outcome Bytes
prepend b (ok bs) = ok (b ∷ bs)
prepend b (err e) = err e
prepend b panicked = panicked
prepend b blocked = blocked

-- `for i in 0..n { bytes[i] = seq.next_element()?.ok_or_else(|| invalid_length)?; }`
unfoldable pub read_elements : ℕ → List (Option ℕ) → Outcome Bytes
read_elements zero seq = ok []
read_elements (suc n) [] = err "invalid length"
read_elements (suc n) (none ∷ seq) = err "invalid element"
read_elements (suc n) (some b ∷ seq) = prepend b (read_elements n seq)

abbrev pub decode : {A : Type 0} → (Bytes → Option A) → String → Outcome Bytes → Outcome A
decode from_bytes e (ok bs) = ok_or (from_bytes bs) e
decode from_bytes e (err e') = err e'
decode from_bytes e panicked = panicked
decode from_bytes e blocked = blocked

module _ {A : Type 0} (enc : Encoding A) where
  -- `SerializableG1Affine`: the compressed bytes, of which there are 48.
  unfoldable pub serialize_g1 : A → Bytes
  serialize_g1 point = enc.to_bytes point

  unfoldable pub visit_bytes_g1 : Bytes → Outcome A
  visit_bytes_g1 v =
      if not (length v == 48)
      then err "invalid length for G1Affine"
      else ok_or (enc.from_bytes v) "invalid G1Affine point"

  unfoldable pub visit_seq_g1 : List (Option ℕ) → Outcome A
  visit_seq_g1 seq = decode enc.from_bytes "invalid G1Affine point" (read_elements 48 seq)

  -- `SerializableScalar`: 32 bytes.
  unfoldable pub serialize_scalar : A → Bytes
  serialize_scalar scalar = enc.to_bytes scalar

  unfoldable pub visit_bytes_scalar : Bytes → Outcome A
  visit_bytes_scalar v =
      if not (length v == 32)
      then err "invalid length for Scalar"
      else ok_or (enc.from_bytes v) "invalid Scalar value"

  unfoldable pub visit_seq_scalar : List (Option ℕ) → Outcome A
  visit_seq_scalar seq = decode enc.from_bytes "invalid Scalar value" (read_elements 32 seq)

  -- `SerializablePeerId`: the visitor asks for 48 bytes, and has no `visit_seq`.
  unfoldable pub serialize_peer_id : A → Bytes
  serialize_peer_id peer_id = enc.to_bytes peer_id

  unfoldable pub visit_bytes_peer_id : Bytes → Outcome A
  visit_bytes_peer_id v =
      if not (length v == 48)
      then err "invalid length for peerId"
      else ok_or (enc.from_bytes v) "invalid peerId"
