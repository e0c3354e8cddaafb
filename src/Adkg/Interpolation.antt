-- ===== src/Adkg/Interpolation.antt =====
-- Lagrange interpolation at zero for coefficient lists: the theorem behind `reconstruct_secret` of
-- src/adkg_layer.bkp.rs.
use mpc_node.Common.{ℕ, ◌≤◌, ◌≡◌, refl, sym, ap, ap₂, ◌∙◌, List, [], ◌∷◌, length, arith}
use mpc_node.Crypto.{Curve}
use mpc_node.Crypto.Field
use mpc_node.Adkg.Polynomial
use mpc_node.Adkg.Polynomial.{horner, quotient}
use mpc_node.Adkg.Weights.{
  Apart, weight, weighted, sub_ne, weight_self, weighted_congr, weighted_swap, weighted-add,
  weighted_scale, weighted_factor,
}

module _ (c : Curve) where
  infixl 65 ◌⊕◌ ◌⊖◌
  infixl 70 ◌⊗◌
  open c use {
    Scalar, zero_scalar, one_scalar, ◌⊕◌, ◌⊖◌, ◌⊗◌, from, add_assoc, add_comm, sub-add, one-mul,
  }

  -- The weights of any indices that are apart add up to one.
  abbrev UnitSum : List ℕ → Type 0
  UnitSum all = weighted c all (λ _. one_scalar) all ≡ one_scalar

  weighted_one_step :
      (x y : ℕ) (rest : List ℕ)
      → Apart c (x ∷ y ∷ rest)
      → UnitSum (y ∷ rest)
      → UnitSum (x ∷ rest)
      → UnitSum (x ∷ y ∷ rest)
  weighted_one_step x y rest h without_x without_y =
      Field.mul_cancel c whole one_scalar (from x ⊖ from y) (sub_ne c (λ e. h.0.0 (sym e))) (
        Field.add_cancel c ((from x ⊖ from y) ⊗ whole) ((from x ⊖ from y) ⊗ one_scalar) (from y)
          (Field.add_cancel c _ _ at_x (add_comm _ at_x ∙ sum_eq ∙ add_comm at_x _)))
    where
      all : List ℕ
      all = x ∷ y ∷ rest

      whole : Scalar
      whole = weighted c all (λ _. one_scalar) all

      at_x : Scalar
      at_x = weighted c all (λ i. (from i ⊖ from x) ⊗ one_scalar) all

      at_y : Scalar
      at_y = weighted c all (λ i. (from i ⊖ from y) ⊗ one_scalar) all

      factor_x : at_x ⊕ from x ≡ zero_scalar
      factor_x =
          ap (λ z. at_x ⊕ z) (sym (ap (λ z. from x ⊗ z) (without_x) ∙ Field.mul-one c (from x)))
          ∙ weighted_factor c x (y ∷ rest) (λ _. one_scalar) h

      swapped : Apart c (y ∷ x ∷ rest)
      swapped = ((λ e. h.0.0 (sym e), h.1.0), (h.0.1, h.1.1))

      factor_y : at_y ⊕ from y ≡ zero_scalar
      factor_y =
          ap₂ (λ z w. z ⊕ w) (weighted_swap c x y rest (λ i. (from i ⊖ from y) ⊗ one_scalar))
            (sym (ap (λ z. from y ⊗ z) (without_y) ∙ Field.mul-one c (from y)))
          ∙ weighted_factor c y (x ∷ rest) (λ _. one_scalar) swapped

      shift :
          (i : ℕ)
          → (from i ⊖ from y) ⊗ one_scalar
            ≡ (from i ⊖ from x) ⊗ one_scalar ⊕ (from x ⊖ from y) ⊗ one_scalar
      shift i =
          ap (λ z. z ⊗ one_scalar)
            (Field.add_cancel c (from i ⊖ from y) ((from i ⊖ from x) ⊕ (from x ⊖ from y)) (from y) (
              sub-add (from i) (from y)
              ∙ sym (
                  add_assoc (from i ⊖ from x) (from x ⊖ from y) (from y)
                  ∙ ap (λ z. (from i ⊖ from x) ⊕ z) (sub-add (from x) (from y))
                  ∙ sub-add (from i) (from x))))
          ∙ Field.add-mul c (from i ⊖ from x) (from x ⊖ from y) one_scalar

      split_y : at_y ≡ at_x ⊕ (from x ⊖ from y) ⊗ whole
      split_y =
          weighted_congr c all all (λ i. (from i ⊖ from y) ⊗ one_scalar)
            (λ i. (from i ⊖ from x) ⊗ one_scalar ⊕ (from x ⊖ from y) ⊗ one_scalar) all (λ i. refl)
            shift
          ∙ weighted-add c all (λ i. (from i ⊖ from x) ⊗ one_scalar)
              (λ _. (from x ⊖ from y) ⊗ one_scalar) all
          ∙ ap (λ z. at_x ⊕ z) (weighted_scale c all (from x ⊖ from y) (λ _. one_scalar) all)

      sum_eq :
          at_x ⊕ ((from x ⊖ from y) ⊗ whole ⊕ from y)
          ≡ at_x ⊕ ((from x ⊖ from y) ⊗ one_scalar ⊕ from y)
      sum_eq =
          sym (add_assoc at_x ((from x ⊖ from y) ⊗ whole) (from y))
          ∙ ap (λ z. z ⊕ from y) (sym split_y)
          ∙ factor_y
          ∙ sym factor_x
          ∙ ap (λ z. at_x ⊕ z)
              (sym (
                ap (λ z. z ⊕ from y) (Field.mul-one c (from x ⊖ from y))
                ∙ sub-add (from x) (from y)))

  weighted_one : (x : ℕ) (rest : List ℕ) → Apart c (x ∷ rest) → UnitSum (x ∷ rest)
  weighted_one x [] h =
      unfold weighted weight in (Field.add-zero c _ ∙ one-mul _ ∙ weight_self c x [])
  weighted_one x (y ∷ rest) h =
      weighted_one_step x y rest h (weighted_one y rest h.1) (weighted_one x rest (h.0.1, h.1.1))

  weighted-horner_step :
      (x : ℕ) (rest : List ℕ) (coeffs : List Scalar)
      → Apart c (x ∷ rest)
      → weighted c rest (λ i. horner c (quotient c (from x) coeffs) (from i)) rest
        ≡ horner c (quotient c (from x) coeffs) zero_scalar
      → weighted c (x ∷ rest) (λ i. horner c coeffs (from i)) (x ∷ rest)
        ≡ horner c coeffs zero_scalar
  weighted-horner_step x rest coeffs h lower =
      weighted_congr c all all (λ i. p (from i))
        (λ i. p (from x) ⊗ one_scalar ⊕ (from i ⊖ from x) ⊗ q (from i)) all (λ i. refl) divided
      ∙ weighted-add c all (λ _. p (from x) ⊗ one_scalar) (λ i. (from i ⊖ from x) ⊗ q (from i)) all
      ∙ ap₂ (λ y z. y ⊕ z) constant linear
      ∙ sym (Polynomial.horner-divide c (from x) zero_scalar coeffs)
    where
      all : List ℕ
      all = x ∷ rest

      p : Scalar → Scalar
      p z = horner c coeffs z

      q : Scalar → Scalar
      q z = horner c (quotient c (from x) coeffs) z

      divided : (i : ℕ) → p (from i) ≡ p (from x) ⊗ one_scalar ⊕ (from i ⊖ from x) ⊗ q (from i)
      divided i =
          Polynomial.horner-divide c (from x) (from i) coeffs
          ∙ ap (λ y. y ⊕ (from i ⊖ from x) ⊗ q (from i)) (sym (Field.mul-one c (p (from x))))

      constant : weighted c all (λ _. p (from x) ⊗ one_scalar) all ≡ p (from x)
      constant =
          weighted_scale c all (p (from x)) (λ _. one_scalar) all
          ∙ ap (λ y. p (from x) ⊗ y) (weighted_one x rest h)
          ∙ Field.mul-one c (p (from x))

      linear :
          weighted c all (λ i. (from i ⊖ from x) ⊗ q (from i)) all
          ≡ (zero_scalar ⊖ from x) ⊗ q zero_scalar
      linear = Field.add_cancel c _ _ (from x ⊗ q zero_scalar) (
          ap (λ y. weighted c all (λ i. (from i ⊖ from x) ⊗ q (from i)) all ⊕ from x ⊗ y)
            (sym lower)
          ∙ weighted_factor c x rest (λ i. q (from i)) h
          ∙ sym (
              sym (Field.add-mul c (zero_scalar ⊖ from x) (from x) (q zero_scalar))
              ∙ ap (λ y. y ⊗ q zero_scalar) (sub-add zero_scalar (from x))
              ∙ Field.zero-mul c (q zero_scalar)))

  -- A polynomial with no more coefficients than there are indices is given at zero by the weighted
  -- sum of its values.
  pub weighted-horner :
      (indices : List ℕ) (coeffs : List Scalar)
      → Apart c indices
      → length coeffs ≤ length indices
      → weighted c indices (λ i. horner c coeffs (from i)) indices ≡ horner c coeffs zero_scalar
  weighted-horner [] [] h le = unfold weighted horner in refl
  weighted-horner [] (a ∷ rest) h le = absurd (omega arith)
  weighted-horner (x ∷ rest) coeffs h le = weighted-horner_step x rest coeffs h (
      weighted-horner rest (quotient c (from x) coeffs) h.1
        (Polynomial.length-quotient_le c (from x) coeffs (length rest) le))
