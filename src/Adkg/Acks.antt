-- ===== src/Adkg/Acks.antt =====
-- The acknowledgements of src/adkg_layer.bkp.rs: how `count_valid` counts them.
use mpc_node.Common.{
  ℕ, ◌+◌, ◌≡◌, refl, String, Bool, true, false, List, [], ◌∷◌, ◌++◌, length, keep,
  length-keep_append, none, some, arith, if◌then◌else◌, str_eq, Bool-cases, inl, inr,
}
use mathlib.Core.List.{flatten}
use mpc_node.Common.HashMap.{HashMap, insert, lookup, values}
use mpc_node.Crypto.{Curve}
use mpc_node.Adkg.{count_valid, push_ack}

module _ (c : Curve) where
  abbrev Acks : Type 0
  Acks = HashMap (List (String × Bool))

  abbrev one_if : Bool → ℕ
  one_if valid = if valid then 1 else 0

  count_cons :
      (k : String) (acks : List (String × Bool)) (m : Acks)
      → count_valid c ((k, acks) ∷ m) ≡ length (keep (λ a. a.1) acks) + count_valid c m
  unfolding count_valid flatten
  count_cons k acks m = length-keep_append (λ a. a.1) acks (flatten (values m))

  count_append :
      (acks : List (String × Bool)) (ack : String × Bool)
      → length (keep (λ a. a.1) (acks ++ ack ∷ [])) ≡ length (keep (λ a. a.1) acks) + one_if ack.1
  count_append acks (s, true) = length-keep_append (λ a. a.1) acks ((s, true) ∷ [])
  count_append acks (s, false) = length-keep_append (λ a. a.1) acks ((s, false) ∷ [])

  old : String → Acks → List (String × Bool)
  old k m = elim (lookup k m) [ none ↦ [] | some acks ↦ acks ]

  old_eq :
      (k j : String) (acks : List (String × Bool)) (m : Acks)
      → str_eq j k ≡ true
      → old k ((j, acks) ∷ m) ≡ acks
  unfolding old lookup
  old_eq k j acks m e = rw (e, old, lookup) refl

  old_ne :
      (k j : String) (acks : List (String × Bool)) (m : Acks)
      → str_eq j k ≡ false
      → old k ((j, acks) ∷ m) ≡ old k m
  unfolding old lookup
  old_ne k j acks m e = rw (e, old, lookup) refl

  insert_eq :
      (k j : String) (v acks : List (String × Bool)) (m : Acks)
      → str_eq j k ≡ true
      → insert k v ((j, acks) ∷ m) ≡ (k, v) ∷ m
  unfolding insert
  insert_eq k j v acks m e = rw (e, insert) refl

  insert_ne :
      (k j : String) (v acks : List (String × Bool)) (m : Acks)
      → str_eq j k ≡ false
      → insert k v ((j, acks) ∷ m) ≡ (j, acks) ∷ insert k v m
  unfolding insert
  insert_ne k j v acks m e = rw (e, insert) refl

  count_insert :
      (k : String) (ack : String × Bool) (m : Acks)
      → count_valid c (insert k (old k m ++ ack ∷ []) m) ≡ count_valid c m + one_if ack.1
  count_insert k ack [] =
      unfold insert old lookup in omega (arith, count_cons k (ack ∷ []) [], count_append [] ack)
  count_insert k ack ((j, acks) ∷ m) = elim (Bool-cases (str_eq j k)) [
    | inl e ↦
        rw (old_eq k j acks m e, insert_eq k j (acks ++ ack ∷ []) acks m e)
          (omega
            (arith, count_cons k (acks ++ ack ∷ []) m, count_cons j acks m, count_append acks ack))
    | inr e ↦
        rw (old_ne k j acks m e, insert_ne k j (old k m ++ ack ∷ []) acks m e)
          (omega (
            arith,
            count_cons j acks (insert k (old k m ++ ack ∷ []) m),
            count_cons j acks m,
            count_insert k ack m,
          ))
  ]

  -- Every acknowledgement that is pushed counts, if it is valid: also a further one of a sender
  -- that has been counted before.
  pub count_valid-push_ack :
      (sender_id : String) (valid : Bool) (acks : HashMap (List (String × Bool)))
      → count_valid c (push_ack c sender_id (sender_id, valid) acks)
        ≡ count_valid c acks + (if valid then 1 else 0)
  unfolding push_ack old
  count_valid-push_ack sender_id valid acks = count_insert sender_id (sender_id, valid) acks
