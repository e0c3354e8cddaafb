-- ===== src/Common/HashMap.antt =====
-- `HashMap<String, V>` as an association list: `insert` overwrites the entry of an equal key.
-- The order of the list is the order of first insertion. Rust's iteration order is unspecified; the
-- code iterates only to add up, to count, and to test all entries.
use Prim.Native.String.{String}
use mathlib.Core.Path.{◌≡◌, refl, sym, ap, ap₂, ◌∙◌, subst}
use mathlib.Core.List.{List, [], ◌∷◌, ◌++◌, append_assoc}
use mathlib.Core.Option.{Option, none, some, some-injective}
use native.Mathlib.Omega.{arith}
use text.Mathlib.Text.{◌==◌ as str_eq}
use text.Mathlib.TextEquality.{eq_iff}
use mpc_node.Common.Tests.{if◌then◌else◌, Bool-cases}
use mpc_node.Common.Lists.{All}
use mathlib.Core.Logic.{◌≢◌, inl, inr}

abbrev pub HashMap {ℓ} : Type ℓ → Type ℓ
HashMap V = List (String × V)

module _ {ℓ} {V : Type ℓ} where
  -- `get`
  unfoldable pub lookup : String → HashMap V → Option V
  lookup key [] = none
  lookup key (entry ∷ entries) = if str_eq entry.0 key then some entry.1 else lookup key entries

  unfoldable pub insert : String → V → HashMap V → HashMap V
  insert key value [] = (key, value) ∷ []
  insert key value (entry ∷ entries) =
      if str_eq entry.0 key then (key, value) ∷ entries else entry ∷ insert key value entries

  abbrev pub values : HashMap V → List V
  values [] = []
  values (entry ∷ entries) = entry.1 ∷ values entries

  -- A read after a write sees the write at its key, and the old map elsewhere.
  pub lookup-insert :
      (written asked : String) (value : V) (entries : HashMap V)
      → lookup asked (insert written value entries)
        ≡ (if str_eq written asked then some value else lookup asked entries)
  unfolding lookup insert
  lookup-insert written asked value [] = refl
  lookup-insert written asked value (entry ∷ entries) = ground (
    arith,
    lookup-insert written asked value entries,
    eq_iff entry.0 written,
    eq_iff entry.0 asked,
    eq_iff written asked,
  )

  -- What holds of all entries holds of a new map, and of what is looked up.
  pub All-insert {κ} :
      (P : String × V → Type κ) (key : String) (value : V) (entries : HashMap V)
      → P (key, value)
      → All P entries
      → All P (insert key value entries)
  unfolding insert
  All-insert P key value [] p h = (p, tt)
  All-insert P key value (entry ∷ entries) p h = elim (Bool-cases (str_eq entry.0 key)) [
    | inl e ↦ rw e (p, h.1)
    | inr e ↦ rw e (h.0, All-insert P key value entries p h.1)
  ]

  pub All-lookup {κ} :
      (P : String × V → Type κ) (key : String) (value : V) (entries : HashMap V)
      → All P entries
      → lookup key entries ≡ some value
      → P (key, value)
  unfolding lookup
  All-lookup P key value [] h e = cc
  All-lookup P key value (entry ∷ entries) h e = elim (Bool-cases (str_eq entry.0 key)) [
    | inl same ↦
        subst P
          (ap₂ (λ k v. (k, v)) ((eq_iff entry.0 key).0 same)
            (some-injective entry.1 value (ground (arith, e, same))))
          h.0
    | inr other ↦ All-lookup P key value entries h.1 (ground (arith, e, other))
  ]

  -- No key stands twice.
  abbrev pub IsUnique : HashMap V → Type 0
  IsUnique [] = Unit
  IsUnique (entry ∷ entries) = All (λ other. other.0 ≢ entry.0) entries × IsUnique entries

  insert_others :
      (asked key : String) (value : V) (entries : HashMap V)
      → key ≢ asked
      → All (λ other. other.0 ≢ asked) entries
      → All (λ other. other.0 ≢ asked) (insert key value entries)
  insert_others asked key value entries ne h =
      All-insert (λ other. other.0 ≢ asked) key value entries ne h

  pub insert-IsUnique :
      (key : String) (value : V) (entries : HashMap V)
      → IsUnique entries
      → IsUnique (insert key value entries)
  unfolding insert
  insert-IsUnique key value [] h = (tt, tt)
  insert-IsUnique key value (entry ∷ entries) h = elim (Bool-cases (str_eq entry.0 key)) [
    | inl e ↦
        rw e (subst (λ k. All (λ other. other.0 ≢ k) entries) ((eq_iff entry.0 key).0 e) h.0, h.1)
    | inr e ↦ rw e (
      insert_others entry.0 key value entries (λ same. cc ((eq_iff entry.0 key).1 (sym same), e))
          h.0,
      insert-IsUnique key value entries h.1,
    )
  ]

  -- A key that the map does not have goes to its end.
  pub insert_fresh :
      (k : String) (v : V) (m : HashMap V) → lookup k m ≡ none → insert k v m ≡ m ++ (k, v) ∷ []
  unfolding insert lookup
  insert_fresh k v [] h = refl
  insert_fresh k v ((j, w) ∷ m) h = ground (arith, h, insert_fresh k v m)

  pub lookup-insert_ne :
      (k j : String) (v : V) (m : HashMap V)
      → lookup j m ≡ none
      → j ≢ k
      → lookup j (insert k v m) ≡ none
  lookup-insert_ne k j v m h ne = ground (arith, h, ne, eq_iff k j, lookup-insert k j v m)

  pub insert-append :
      (k : String) (v : V) (m rest : HashMap V)
      → lookup k m ≡ none
      → insert k v m ++ rest ≡ m ++ (k, v) ∷ rest
  insert-append k v m rest h =
      ap (λ l. l ++ rest) (insert_fresh k v m h) ∙ append_assoc m ((k, v) ∷ []) rest
