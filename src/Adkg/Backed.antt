-- ===== src/Adkg/Backed.antt =====
-- What holds at a node of src/adkg_layer.bkp.rs whatever messages it is sent, by honest nodes or by
-- others: every share that it stores fits the commitments that it stores beside it.
use mpc_node.Common.{
  ℕ, ◌-◌, ◌≤◌, ◌≡◌, ◌≢◌, refl, sym, ap, ap₂, ◌∙◌, map, Option, some, String, true, List, [], ◌∷◌,
  length, get_elem?, arith, ok, panicked, Option-cases, Bool-cases, inl, inr, str_eq,
}
use mpc_node.Common.HashMap.{HashMap, insert, values}
use mpc_node.Crypto.{Curve}
use mpc_node.Crypto.Points
use mpc_node.Crypto.Points.{accumulate, accumulate_points}
use mpc_node.Adkg.{AdkgNode, commitment_terms, verify_commitments, add_first_commitments}

module _ (c : Curve) where
  infixl 65 ◌⊞◌
  infixl 75 ◌⊙◌
  open c use {
    Scalar, zero_scalar, from, G1Projective, G1Affine, identity, generator, ◌⊞◌, ◌⊙◌, point_eq,
    point_eq_iff, to_projective,
  }

  -- The value in the exponent of a committed polynomial at an index.
  abbrev pub committed_at : ℕ → List G1Affine → G1Projective
  committed_at idx commitments = commitment_terms c (from idx) 0 identity commitments

  -- The two maps have the same keys, in one order, and each share fits its commitments.
  abbrev pub Backed : ℕ → HashMap Scalar → HashMap (List G1Affine) → Type 0
  Backed idx [] [] = Unit
  Backed idx [] (e ∷ commitments) = ⊥
  Backed idx (s ∷ shares) [] = ⊥
  Backed idx (s ∷ shares) (e ∷ commitments) =
      (s.0 ≡ e.0) × (committed_at idx e.1 ≡ generator ⊙ s.1) × Backed idx shares commitments

  pub insert-Backed :
      (idx : ℕ) (sender_id : String) (share : Scalar) (kept : List G1Affine)
      (shares : HashMap Scalar) (commitments : HashMap (List G1Affine))
      → committed_at idx kept ≡ generator ⊙ share
      → Backed idx shares commitments
      → Backed idx (insert sender_id share shares) (insert sender_id kept commitments)
  unfolding insert
  insert-Backed idx sender_id share kept [] [] e h = (refl, e, tt)
  insert-Backed idx sender_id share kept [] (x ∷ commitments) e h = elim h [ ]
  insert-Backed idx sender_id share kept (s ∷ shares) [] e h = elim h [ ]
  insert-Backed idx sender_id share kept (s ∷ shares) (x ∷ commitments) e h =
      rw (← h.0) (elim (Bool-cases (str_eq s.0 sender_id)) [
        | inl same ↦ rw same (refl, e, h.2)
        | inr other ↦
            rw other (refl, h.1, insert-Backed idx sender_id share kept shares commitments e h.2)
      ])

  -- What a node has checked when it accepts.
  pub verify_commitments-true :
      (node : AdkgNode c) (sender_id : String) (shares : List Scalar) (commitments : List G1Affine)
      → verify_commitments c node sender_id shares commitments ≡ ok true
      → (share : Scalar) × (1 ≤ node.idx)
        × (node.idx ≤ length shares)
        × (get_elem? shares (node.idx - 1) ≡ some share)
        × (committed_at node.idx commitments ≡ generator ⊙ share)
  unfolding verify_commitments
  verify_commitments-true node sender_id shares commitments h =
      elim (Option-cases (get_elem? shares (node.idx - 1))) [
        | inl e ↦ absurd (ground (arith, h, e))
        | inr (share, e) ↦ (
          share,
          ground (arith, h),
          ground (arith, h),
          e,
          ground
              (arith, h, e, point_eq_iff (committed_at node.idx commitments) (generator ⊙ share)),
        )
      ]

  -- The key share and the public key that belong to these lists of commitments: in the exponent the
  -- share is the sum of the committed polynomials at the index, and the key is the sum of the first
  -- commitments, which every list has.
  pub record IsCompleted (idx : ℕ) (lists : List (List G1Affine)) (share : Option Scalar)
      (public_key : Option G1Projective) : Type 0 where
    pub secret : Scalar
    pub kept : List (G1Affine × List G1Affine)
    pub is_share : share ≡ some secret
    pub all_kept : lists ≡ map (λ l. l.0 ∷ l.1) kept
    pub fits : generator ⊙ secret ≡ accumulate_points c identity (map (committed_at idx) lists)
    pub is_key :
        public_key ≡ some (accumulate_points c identity (map (λ l. to_projective l.0) kept))

  points_of_Backed :
      (idx : ℕ) (shares : HashMap Scalar) (commitments : HashMap (List G1Affine))
      → Backed idx shares commitments
      → map (committed_at idx) (values commitments) ≡ map (λ s. generator ⊙ s) (values shares)
  points_of_Backed idx [] [] h = refl
  points_of_Backed idx [] (e ∷ commitments) h = elim h [ ]
  points_of_Backed idx (s ∷ shares) [] h = elim h [ ]
  points_of_Backed idx (s ∷ shares) (e ∷ commitments) h =
      ap₂ (λ p ps. p ∷ ps) h.1 (points_of_Backed idx shares commitments h.2)

  -- The sum of the stored shares in the exponent.
  pub sum_of_Backed :
      (idx : ℕ) (shares : HashMap Scalar) (commitments : HashMap (List G1Affine))
      → Backed idx shares commitments
      → generator ⊙ accumulate c zero_scalar (values shares)
        ≡ accumulate_points c identity (map (committed_at idx) (values commitments))
  sum_of_Backed idx shares commitments h =
      ap (λ s. generator ⊙ s) (Points.accumulate_zero-sum c (values shares))
      ∙ sym (Points.accumulate_points-sum c (values shares))
      ∙ ap (accumulate_points c identity) (sym (points_of_Backed idx shares commitments h))

  -- Without a panic every list has a first commitment.
  pub first_of_each :
      {S : Type 0} (start : G1Projective) (lists : List (List G1Affine)) (w : S)
      → (add_first_commitments c start lists w).0 ≢ panicked
      → (kept : List (G1Affine × List G1Affine)) × (lists ≡ map (λ l. l.0 ∷ l.1) kept)
  unfolding add_first_commitments
  first_of_each start [] w h = ([], refl)
  first_of_each start ([] ∷ lists) w h = absurd (h refl)
  first_of_each start ((p ∷ ps) ∷ lists) w h =
      let (kept, e) = first_of_each (start ⊞ to_projective p) lists w h in
      ((p, ps) ∷ kept, ap (λ l. (p ∷ ps) ∷ l) e)
