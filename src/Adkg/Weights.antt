-- ===== src/Adkg/Weights.antt =====
-- The Lagrange weights at zero that `reconstruct_secret` of src/adkg_layer.bkp.rs multiplies the
-- shares by: what happens to them when an index is moved, or when a factor (z - x) is put in.
use mpc_node.Common.{
  ℕ, ◌≡◌, ◌≢◌, refl, sym, ap, ap₂, ◌∙◌, Bool, true, false, List, [], ◌∷◌, All, ◌==◌, ==_iff,
}
use mpc_node.Crypto.{Curve}
use mpc_node.Crypto.Field
use mpc_node.Crypto.Field.{inverse}

module _ (c : Curve) where
  infixl 65 ◌⊕◌ ◌⊖◌
  infixl 70 ◌⊗◌
  open c use {
    Scalar, zero_scalar, one_scalar, ◌⊕◌, ◌⊖◌, ◌⊗◌, from, add_assoc, add_comm, zero-add, sub-add,
    mul_assoc, mul_comm, mul-add, one-mul,
  }

  -- The indices stand for pairwise different scalars.
  abbrev pub Apart : List ℕ → Type 0
  Apart [] = Unit {0}
  Apart (i ∷ rest) = All (λ j. from j ≢ from i) rest × Apart rest

  -- The product of x_j / (x_j - x_i) over the other indices j.
  unfoldable pub weight : List ℕ → ℕ → Scalar
  weight [] i = one_scalar
  weight (j ∷ rest) i = elim (j == i) [
    | true ↦ weight rest i
    | false ↦ (from j ⊗ inverse c (from j ⊖ from i)) ⊗ weight rest i
  ]

  -- The sum of f(i) times the weight of i in `all`, over some indices i.
  unfoldable pub weighted : List ℕ → (ℕ → Scalar) → List ℕ → Scalar
  weighted all f [] = zero_scalar
  weighted all f (i ∷ rest) = f i ⊗ weight all i ⊕ weighted all f rest

  pub sub_ne : {a b : Scalar} → a ≢ b → a ⊖ b ≢ zero_scalar
  sub_ne {a} {b} h e = h (Field.eq_of_sub_zero c a b e)

  pub index_ne : (i j : ℕ) → from j ≢ from i → (j == i) ≡ false
  index_ne i j h = split (j == i) refl
    where
      split : (t : Bool) → (j == i) ≡ t → (j == i) ≡ false
      split true e = absurd (h (ap from ((==_iff j i).0 e)))
      split false e = e

  weight_ne :
      (x i : ℕ) (rest : List ℕ)
      → from i ≢ from x
      → weight (x ∷ rest) i ≡ (from x ⊗ inverse c (from x ⊖ from i)) ⊗ weight rest i
  unfolding weight
  weight_ne x i rest h = rw (index_ne i x (λ e. h (sym e)), weight)

  pub weight_self : (x : ℕ) (rest : List ℕ) → weight (x ∷ rest) x ≡ weight rest x
  unfolding weight
  weight_self x rest = rw ((==_iff x x).1 refl, weight)

  weight_swap :
      (x y : ℕ) (rest : List ℕ) (i : ℕ) → weight (x ∷ y ∷ rest) i ≡ weight (y ∷ x ∷ rest) i
  unfolding weight
  weight_swap x y rest i = split (x == i) (y == i)
    where
      split :
          (s t : Bool)
          → elim s [
            | true ↦ elim t [
              | true ↦ weight rest i
              | false ↦ (from y ⊗ inverse c (from y ⊖ from i)) ⊗ weight rest i
            ]
            | false ↦ (from x ⊗ inverse c (from x ⊖ from i)) ⊗ elim t [
              | true ↦ weight rest i
              | false ↦ (from y ⊗ inverse c (from y ⊖ from i)) ⊗ weight rest i
            ]
          ]
            ≡ elim t [
              | true ↦ elim s [
                | true ↦ weight rest i
                | false ↦ (from x ⊗ inverse c (from x ⊖ from i)) ⊗ weight rest i
              ]
              | false ↦ (from y ⊗ inverse c (from y ⊖ from i)) ⊗ elim s [
                | true ↦ weight rest i
                | false ↦ (from x ⊗ inverse c (from x ⊖ from i)) ⊗ weight rest i
              ]
            ]
      split true true = refl
      split true false = refl
      split false true = refl
      split false false = Field.mul_left_comm c _ _ (weight rest i)

  pub weighted_congr :
      (all all' : List ℕ) (f g : ℕ → Scalar) (pts : List ℕ)
      → ((i : ℕ) → weight all i ≡ weight all' i)
      → ((i : ℕ) → f i ≡ g i)
      → weighted all f pts ≡ weighted all' g pts
  unfolding weighted
  weighted_congr all all' f g [] h k = refl
  weighted_congr all all' f g (i ∷ rest) h k =
      ap₂ (λ x y. x ⊕ y) (ap₂ (λ x y. x ⊗ y) (k i) (h i)) (weighted_congr all all' f g rest h k)

  pub weighted_swap :
      (x y : ℕ) (rest : List ℕ) (f : ℕ → Scalar)
      → weighted (x ∷ y ∷ rest) f (x ∷ y ∷ rest) ≡ weighted (y ∷ x ∷ rest) f (y ∷ x ∷ rest)
  unfolding weighted
  weighted_swap x y rest f =
      Field.add_left_comm c _ _ _
      ∙ weighted_congr (x ∷ y ∷ rest) (y ∷ x ∷ rest) f f (y ∷ x ∷ rest) (weight_swap x y rest)
          (λ i. refl)

  pub weighted-add :
      (all : List ℕ) (f g : ℕ → Scalar) (pts : List ℕ)
      → weighted all (λ i. f i ⊕ g i) pts ≡ weighted all f pts ⊕ weighted all g pts
  unfolding weighted
  weighted-add all f g [] = sym (zero-add zero_scalar)
  weighted-add all f g (i ∷ rest) =
      ap₂ (λ x y. x ⊕ y) (Field.add-mul c (f i) (g i) (weight all i)) (weighted-add all f g rest)
      ∙ Field.add_interchange c _ _ _ _

  pub weighted_scale :
      (all : List ℕ) (a : Scalar) (f : ℕ → Scalar) (pts : List ℕ)
      → weighted all (λ i. a ⊗ f i) pts ≡ a ⊗ weighted all f pts
  unfolding weighted
  weighted_scale all a f [] = sym (Field.mul-zero c a)
  weighted_scale all a f (i ∷ rest) =
      ap (λ y. (a ⊗ f i) ⊗ weight all i ⊕ y) (weighted_scale all a f rest)
      ∙ simp (mul-add, mul_assoc)

  opposite_inverse : (i x : Scalar) → i ≢ x → (i ⊖ x) ⊗ inverse c (x ⊖ i) ⊕ one_scalar ≡ zero_scalar
  opposite_inverse i x h =
      ap (λ y. (i ⊖ x) ⊗ inverse c (x ⊖ i) ⊕ y)
        (sym (Field.mul-inverse c (x ⊖ i) (sub_ne (λ e. h (sym e)))))
      ∙ sym (Field.add-mul c (i ⊖ x) (x ⊖ i) (inverse c (x ⊖ i)))
      ∙ ap (λ y. y ⊗ inverse c (x ⊖ i)) opposite
      ∙ Field.zero-mul c _
    where
      opposite : (i ⊖ x) ⊕ (x ⊖ i) ≡ zero_scalar
      opposite = Field.add_cancel c ((i ⊖ x) ⊕ (x ⊖ i)) zero_scalar i (
          add_assoc (i ⊖ x) (x ⊖ i) i
          ∙ ap (λ y. (i ⊖ x) ⊕ y) (sub-add x i)
          ∙ sub-add i x
          ∙ sym (zero-add i))

  -- One term of the interpolation of (z - x) f(z), with the term of f that cancels it.
  cancel_term :
      (d v w f x : Scalar)
      → d ⊗ v ⊕ one_scalar ≡ zero_scalar
      → d ⊗ f ⊗ (x ⊗ v ⊗ w) ⊕ x ⊗ (f ⊗ w) ≡ zero_scalar
  cancel_term d v w f x h = regroup ∙ ap (λ y. y ⊗ (x ⊗ (f ⊗ w))) h ∙ Field.zero-mul c _
    where
      regroup : d ⊗ f ⊗ (x ⊗ v ⊗ w) ⊕ x ⊗ (f ⊗ w) ≡ (d ⊗ v ⊕ one_scalar) ⊗ (x ⊗ (f ⊗ w))
      regroup = simp (Field.add-mul c, one-mul, mul_assoc, mul_comm, Field.mul_left_comm c)

  weighted_tail :
      (x : ℕ) (all : List ℕ) (f : ℕ → Scalar) (pts : List ℕ)
      → All (λ i. from i ≢ from x) pts
      → weighted (x ∷ all) (λ i. (from i ⊖ from x) ⊗ f i) pts ⊕ from x ⊗ weighted all f pts
        ≡ zero_scalar
  unfolding weighted
  weighted_tail x all f [] h = zero-add _ ∙ Field.mul-zero c (from x)
  weighted_tail x all f (i ∷ rest) h =
      ap (λ y. (from i ⊖ from x) ⊗ f i ⊗ y ⊕ a ⊕ from x ⊗ (f i ⊗ weight all i ⊕ b))
        (weight_ne x i all h.0)
      ∙ regroup _ a (from x) (f i ⊗ weight all i) b
      ∙ ap₂ (λ p q. p ⊕ q)
          (cancel_term (from i ⊖ from x) (inverse c (from x ⊖ from i)) (weight all i) (f i) (from x)
            (opposite_inverse (from i) (from x) h.0))
          (weighted_tail x all f rest h.1)
      ∙ zero-add zero_scalar
    where
      a : Scalar
      a = weighted (x ∷ all) (λ i. (from i ⊖ from x) ⊗ f i) rest

      b : Scalar
      b = weighted all f rest

      regroup : (p q s u v : Scalar) → p ⊕ q ⊕ s ⊗ (u ⊕ v) ≡ (p ⊕ s ⊗ u) ⊕ (q ⊕ s ⊗ v)
      regroup p q s u v = simp (mul-add, add_assoc, Field.add_left_comm c)

  -- Multiplying by (z - x) takes the index x out of the interpolation.
  pub weighted_factor :
      (x : ℕ) (rest : List ℕ) (f : ℕ → Scalar)
      → Apart (x ∷ rest)
      → weighted (x ∷ rest) (λ i. (from i ⊖ from x) ⊗ f i) (x ∷ rest)
          ⊕ from x ⊗ weighted rest f rest
        ≡ zero_scalar
  weighted_factor x rest f h =
      ap (λ y. y ⊕ from x ⊗ weighted rest f rest) first ∙ weighted_tail x rest f rest h.0
    where
      vanish : (from x ⊖ from x) ⊗ f x ⊗ weight (x ∷ rest) x ≡ zero_scalar
      vanish =
          ap (λ y. y ⊗ f x ⊗ weight (x ∷ rest) x) (Field.sub_self c (from x))
          ∙ ap (λ y. y ⊗ weight (x ∷ rest) x) (Field.zero-mul c (f x))
          ∙ Field.zero-mul c _

      first :
          weighted (x ∷ rest) (λ i. (from i ⊖ from x) ⊗ f i) (x ∷ rest)
          ≡ weighted (x ∷ rest) (λ i. (from i ⊖ from x) ⊗ f i) rest
      first =
          unfold weighted in
          (ap (λ y. y ⊕ weighted (x ∷ rest) (λ i. (from i ⊖ from x) ⊗ f i) rest) vanish
            ∙ zero-add _)
