-- ===== src/Adkg/Polynomial.antt =====
-- `evaluate_polynomial` of src/adkg_layer.bkp.rs against Horner's rule, and what the interpolation
-- needs of polynomials as coefficient lists: sums, and the division by a linear factor.
use mpc_node.Common.{
  ℕ, zero, suc, ◌+◌, ◌≤◌, ◌≡◌, refl, sym, ap, ◌∙◌, List, [], ◌∷◌, map, length, arith, range_from,
}
use mpc_node.Crypto.{Curve}
use mpc_node.Crypto.Field
use mpc_node.Adkg.{evaluate_terms, evaluate_polynomial, generate_polynomial}

module _ (c : Curve) where
  infixl 65 ◌⊕◌ ◌⊖◌
  infixl 70 ◌⊗◌
  open c use {
    Scalar, zero_scalar, ◌⊕◌, ◌⊖◌, ◌⊗◌, from, pow, add_assoc, add_comm, zero-add, sub-add,
    mul_assoc, mul_comm, mul-add, pow_suc, pow_zero, one-mul,
  }

  -- The value of the polynomial, by Horner's rule.
  unfoldable pub horner : List Scalar → Scalar → Scalar
  horner [] x = zero_scalar
  horner (a ∷ as') x = a ⊕ x ⊗ horner as' x

  evaluate_terms-horner :
      (x : Scalar) (j : ℕ) (result : Scalar) (coeffs : List Scalar)
      → evaluate_terms c x j result coeffs ≡ result ⊕ pow x j ⊗ horner coeffs x
  unfolding evaluate_terms horner
  evaluate_terms-horner x j result [] =
      sym (ap (λ y. result ⊕ y) (Field.mul-zero c (pow x j)) ∙ Field.add-zero c result)
  evaluate_terms-horner x j result (a ∷ as') =
      evaluate_terms-horner x (suc j) (result ⊕ a ⊗ pow x j) as'
      ∙ simp (pow_suc, mul-add, mul_assoc, mul_comm, Field.mul_left_comm c, add_assoc)

  -- The loop of `evaluate_polynomial` computes the value of the polynomial at `i`.
  pub evaluate_polynomial-horner :
      (coeffs : List Scalar) (i : ℕ) → evaluate_polynomial c coeffs i ≡ horner coeffs (from i)
  unfolding evaluate_polynomial
  evaluate_polynomial-horner coeffs i =
      evaluate_terms-horner (from i) 0 zero_scalar coeffs
      ∙ zero-add _
      ∙ ap (λ y. y ⊗ horner coeffs (from i)) (pow_zero (from i))
      ∙ one-mul _

  -- Its value at zero is the constant term.
  pub horner-zero : (a : Scalar) (as' : List Scalar) → horner (a ∷ as') zero_scalar ≡ a
  unfolding horner
  horner-zero a as' = ap (λ y. a ⊕ y) (Field.zero-mul c _) ∙ Field.add-zero c a

  pub quotient : Scalar → List Scalar → List Scalar
  quotient x [] = []
  quotient x (a ∷ []) = []
  quotient x (a ∷ b ∷ rest) = horner (b ∷ rest) x ∷ quotient x (b ∷ rest)

  pub length-quotient :
      (x a : Scalar) (rest : List Scalar) → length (quotient x (a ∷ rest)) ≡ length rest
  unfolding quotient
  length-quotient x a [] = refl
  length-quotient x a (b ∷ rest) = ap suc (length-quotient x b rest)

  pub length-quotient_le :
      (x : Scalar) (coeffs : List Scalar) (n : ℕ)
      → length coeffs ≤ suc n
      → length (quotient x coeffs) ≤ n
  unfolding quotient
  length-quotient_le x [] n h = omega arith
  length-quotient_le x (a ∷ rest) n h = omega (arith, length-quotient x a rest)

  divide_step :
      (a x d hx hz q : Scalar)
      → hz ≡ hx ⊕ d ⊗ q
      → a ⊕ (d ⊕ x) ⊗ hz ≡ (a ⊕ x ⊗ hx) ⊕ d ⊗ (hx ⊕ (d ⊕ x) ⊗ q)
  divide_step a x d hx hz q e =
      ap (λ y. a ⊕ (d ⊕ x) ⊗ y) e
      ∙ simp (mul-add, Field.add-mul c, Field.mul_left_comm c, add_assoc, add_comm)

  constant_step :
      (a x d : Scalar) → a ⊕ (d ⊕ x) ⊗ zero_scalar ≡ (a ⊕ x ⊗ zero_scalar) ⊕ d ⊗ zero_scalar
  constant_step a x d = simp (Field.mul-zero c, Field.add-zero c)

  pub horner-quotient :
      (x d : Scalar) (coeffs : List Scalar)
      → horner coeffs (d ⊕ x) ≡ horner coeffs x ⊕ d ⊗ horner (quotient x coeffs) (d ⊕ x)
  unfolding quotient horner
  horner-quotient x d [] = sym (zero-add _ ∙ Field.mul-zero c d)
  horner-quotient x d (a ∷ []) = constant_step a x d
  horner-quotient x d (a ∷ b ∷ rest) =
      divide_step a x d (horner (b ∷ rest) x) (horner (b ∷ rest) (d ⊕ x))
        (horner (quotient x (b ∷ rest)) (d ⊕ x)) (horner-quotient x d (b ∷ rest))

  -- p(z) = p(x) + (z - x) q(z), where q has one coefficient less.
  pub horner-divide :
      (x z : Scalar) (coeffs : List Scalar)
      → horner coeffs z ≡ horner coeffs x ⊕ (z ⊖ x) ⊗ horner (quotient x coeffs) z
  horner-divide x z coeffs =
      ap (horner coeffs) (sym (sub-add z x))
      ∙ horner-quotient x (z ⊖ x) coeffs
      ∙ ap (λ y. horner coeffs x ⊕ (z ⊖ x) ⊗ horner (quotient x coeffs) y) (sub-add z x)

  -- The polynomial of `generate_polynomial` has one coefficient more than its degree.
  pub length-generate_polynomial :
      (rng : ℕ → Scalar) (degree : ℕ) → length ((generate_polynomial c rng degree).0) ≡ degree + 1
  unfolding generate_polynomial
  length-generate_polynomial rng degree = omega (arith, count 1 degree)
    where
      count : (first n : ℕ) → length (map rng (range_from first n)) ≡ n
      count first zero = refl
      count first (suc n) = ap suc (count (suc first) n)
