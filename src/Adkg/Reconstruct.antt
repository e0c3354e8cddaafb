-- ===== src/Adkg/Reconstruct.antt =====
-- `reconstruct_secret` of src/adkg_layer.bkp.rs: the loops against the weighted sum, and the secret
-- that comes out of enough shares.
use mpc_node.Common.{
  ℕ, ◌≤◌, ◌≡◌, ◌≢◌, refl, sym, ap, ap₂, ◌∙◌, ◌⊎◌, inl, inr, List, [], ◌∷◌, map, length, All, ==_iff,
  some,
}
use mpc_node.Crypto.{Curve}
use mpc_node.Crypto.Field
use mpc_node.Crypto.Field.{sum, inverse}
use mpc_node.Adkg.{lagrange_term, lagrange_sum, reconstruct_secret, evaluate_polynomial}
use mpc_node.Adkg.Polynomial
use mpc_node.Adkg.Polynomial.{horner}
use mpc_node.Adkg.Weights.{Apart, weight, weighted, sub_ne, index_ne, weighted_congr, weighted-add}
use mpc_node.Adkg.Interpolation.{weighted-horner}

module _ (c : Curve) where
  infixl 65 ◌⊕◌ ◌⊖◌
  infixl 70 ◌⊗◌
  open c use {
    Scalar, zero_scalar, one_scalar, ◌⊕◌, ◌⊖◌, ◌⊗◌, from, add_assoc, zero-add, mul_assoc, one-mul,
    invert,
  }

  -- Each index is `i` or another scalar than `i`.
  abbrev Separates : List ℕ → ℕ → Type 0
  Separates js i = All (λ j. (j ≡ i) ⊎ (from j ≢ from i)) js

  abbrev pub with_values : (ℕ → Scalar) → List ℕ → List (ℕ × Scalar)
  with_values f = map (λ i. (i, f i))

  lagrange_term_at :
      (i : ℕ) (term : Scalar) (f : ℕ → Scalar) (j : ℕ) (js : List ℕ)
      → (j ≡ i) ⊎ (from j ≢ from i)
      → ((t : Scalar) → lagrange_term c i t (with_values f js) ≡ some (t ⊗ weight c js i))
      → lagrange_term c i term (with_values f (j ∷ js)) ≡ some (term ⊗ weight c (j ∷ js) i)
  unfolding lagrange_term weight
  lagrange_term_at i term f j js (inl e) rest =
      rw ((==_iff j i).1 e, lagrange_term, weight) (rest term)
  lagrange_term_at i term f j js (inr ne) rest =
      rw
        (
          index_ne c i j ne,
          lagrange_term,
          weight,
          Field.invert-inverse c (from j ⊖ from i) (sub_ne c ne),
        )
        (rest (term ⊗ (from j ⊗ inverse c (from j ⊖ from i)))
          ∙ ap some (mul_assoc term (from j ⊗ inverse c (from j ⊖ from i)) (weight c js i)))

  lagrange_term-weight :
      (i : ℕ) (f : ℕ → Scalar) (js : List ℕ)
      → Separates js i
      → (term : Scalar) → lagrange_term c i term (with_values f js) ≡ some (term ⊗ weight c js i)
  lagrange_term-weight i f [] h term =
      unfold lagrange_term weight in ap some (sym (Field.mul-one c term))
  lagrange_term-weight i f (j ∷ js) h term =
      lagrange_term_at i term f j js h.0 (lagrange_term-weight i f js h.1)

  lagrange_sum-weighted :
      (f : ℕ → Scalar) (all pts : List ℕ) (secret : Scalar)
      → All (Separates all) pts
      → lagrange_sum c (with_values f all) secret (with_values f pts)
        ≡ some (secret ⊕ weighted c all f pts)
  unfolding lagrange_sum weighted
  lagrange_sum-weighted f all [] secret h = ap some (sym (Field.add-zero c secret))
  lagrange_sum-weighted f all (i ∷ pts) secret h =
      rw (lagrange_term-weight i f all h.0 (f i), lagrange_sum)
        (lagrange_sum-weighted f all pts (secret ⊕ f i ⊗ weight c all i) h.1
          ∙ ap some (add_assoc secret (f i ⊗ weight c all i) (weighted c all f pts)))

  All-map {κ} : {P Q : ℕ → Type κ} → ((i : ℕ) → P i → Q i) → (is : List ℕ) → All P is → All Q is
  All-map k [] h = tt
  All-map k (i ∷ is) h = (k i h.0, All-map k is h.1)

  All-zip {κ} :
      {P Q R : ℕ → Type κ}
      → ((i : ℕ) → P i → Q i → R i)
      → (is : List ℕ) → All P is
      → All Q is
      → All R is
  All-zip k [] h h' = tt
  All-zip k (i ∷ is) h h' = (k i h.0 h'.0, All-zip k is h.1 h'.1)

  Apart-Separates : (is : List ℕ) → Apart c is → All (Separates is) is
  Apart-Separates [] h = tt
  Apart-Separates (i ∷ is) h = (
    (inl refl, All-map {P = λ j. from j ≢ from i} (λ j ne. inr ne) is h.0),
    All-zip {P = λ j. from j ≢ from i} {Q = Separates is} (λ j ne s. (inr (λ e. ne (sym e)), s)) is
        h.0 (Apart-Separates is h.1),
  )

  -- At indices that are pairwise different scalars no inversion panics, and the two loops compute
  -- the weighted sum of the shares.
  pub reconstruct_secret-weighted :
      (f : ℕ → Scalar) (indices : List ℕ)
      → Apart c indices
      → reconstruct_secret c (with_values f indices) ≡ some (weighted c indices f indices)
  unfolding reconstruct_secret
  reconstruct_secret-weighted f indices h =
      lagrange_sum-weighted f indices indices zero_scalar (Apart-Separates indices h)
      ∙ ap some (zero-add (weighted c indices f indices))

  -- The shares of a polynomial, at as many indices as it has coefficients or more, give back its
  -- constant term, if the indices stand for pairwise different scalars.
  pub reconstruct_secret-evaluate_polynomial :
      (secret : Scalar) (coeffs : List Scalar) (indices : List ℕ)
      → Apart c indices
      → length (secret ∷ coeffs) ≤ length indices
      → reconstruct_secret c (map (λ i. (i, evaluate_polynomial c (secret ∷ coeffs) i)) indices)
        ≡ some secret
  reconstruct_secret-evaluate_polynomial secret coeffs indices h enough =
      reconstruct_secret-weighted (evaluate_polynomial c (secret ∷ coeffs)) indices h
      ∙ ap some (
          weighted_congr c indices indices (evaluate_polynomial c (secret ∷ coeffs))
            (λ i. horner c (secret ∷ coeffs) (from i)) indices (λ i. refl)
            (Polynomial.evaluate_polynomial-horner c (secret ∷ coeffs))
          ∙ weighted-horner c indices (secret ∷ coeffs) h enough
          ∙ Polynomial.horner-zero c secret coeffs)

  -- The sum of the shares that the dealers gave to the node with index `i`.
  abbrev pub key_share : List (List Scalar) → ℕ → Scalar
  key_share dealers i = sum c (map (λ coeffs. evaluate_polynomial c coeffs i) dealers)

  -- The sum of the dealers' secrets.
  abbrev pub group_secret : List (List Scalar) → Scalar
  group_secret dealers = sum c (map (λ coeffs. horner c coeffs zero_scalar) dealers)

  weighted-zero : (all pts : List ℕ) → weighted c all (λ _. zero_scalar) pts ≡ zero_scalar
  unfolding weighted
  weighted-zero all [] = refl
  weighted-zero all (i ∷ pts) =
      ap₂ (λ x y. x ⊕ y) (Field.zero-mul c (weight c all i)) (weighted-zero all pts)
      ∙ zero-add zero_scalar

  pub weighted-key_share :
      (dealers : List (List Scalar)) (indices : List ℕ)
      → Apart c indices
      → All (λ coeffs. length coeffs ≤ length indices) dealers
      → weighted c indices (key_share dealers) indices ≡ group_secret dealers
  weighted-key_share [] indices h enough = weighted-zero indices indices
  weighted-key_share (coeffs ∷ dealers) indices h enough =
      weighted-add c indices (evaluate_polynomial c coeffs) (key_share dealers) indices
      ∙ ap₂ (λ x y. x ⊕ y)
          (weighted_congr c indices indices (evaluate_polynomial c coeffs)
              (λ i. horner c coeffs (from i)) indices (λ i. refl)
              (Polynomial.evaluate_polynomial-horner c coeffs)
            ∙ weighted-horner c indices coeffs h enough.0)
          (weighted-key_share dealers indices h enough.1)

  -- The key shares of enough nodes, each the sum of what every dealer gave to it, reconstruct the
  -- sum of the dealers' secrets, whatever the polynomials are: enough is as many nodes as any
  -- polynomial has coefficients, with indices that stand for pairwise different scalars.
  pub reconstruct_secret-key_share :
      (dealers : List (List Scalar)) (indices : List ℕ)
      → Apart c indices
      → All (λ coeffs. length coeffs ≤ length indices) dealers
      → reconstruct_secret c (map (λ i. (i, key_share dealers i)) indices)
        ≡ some (group_secret dealers)
  reconstruct_secret-key_share dealers indices h enough =
      reconstruct_secret-weighted (key_share dealers) indices h
      ∙ ap some (weighted-key_share dealers indices h enough)

  lagrange_term_same :
      (i : ℕ) (term s s' : Scalar) → lagrange_term c i term ((i, s) ∷ (i, s') ∷ []) ≡ some term
  unfolding lagrange_term
  lagrange_term_same i term s s' =
      rw ((==_iff i i).1 refl, lagrange_term) (rw ((==_iff i i).1 refl, lagrange_term) refl)

  lagrange_sum_step :
      (all rest : List (ℕ × Scalar)) (secret : Scalar) (i : ℕ) (share term : Scalar)
      → lagrange_term c i share all ≡ some term
      → lagrange_sum c all secret ((i, share) ∷ rest) ≡ lagrange_sum c all (secret ⊕ term) rest
  unfolding lagrange_sum
  lagrange_sum_step all rest secret i share term e = rw (e, lagrange_sum) refl

  -- Two shares with one index are taken at face value: their sum comes out, and no error.
  pub reconstruct_secret_repeated :
      (i : ℕ) (s s' : Scalar) → reconstruct_secret c ((i, s) ∷ (i, s') ∷ []) ≡ some (s ⊕ s')
  unfolding reconstruct_secret
  reconstruct_secret_repeated i s s' =
      lagrange_sum_step _ _ zero_scalar i s s (lagrange_term_same i s s s')
      ∙ lagrange_sum_step _ [] (zero_scalar ⊕ s) i s' s' (lagrange_term_same i s' s s')
      ∙ (unfold lagrange_sum in ap (λ x. some (x ⊕ s')) (zero-add s))
