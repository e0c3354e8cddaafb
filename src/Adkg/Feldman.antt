-- ===== src/Adkg/Feldman.antt =====
-- `verify_commitments` of src/adkg_layer.bkp.rs: Feldman's check of a share against the
-- commitments to the coefficients.
use mpc_node.Common.{
  ℕ, suc, ◌-◌, ◌≤◌, ◌<◌, ◌≡◌, ◌↔◌, ◌⊎◌, refl, sym, ap, ◌∙◌, String, true, false, List, [], ◌∷◌,
  length, get_elem?, some, arith, ok,
}
use mpc_node.Crypto.{Curve}
use mpc_node.Adkg.{
  AdkgNode, evaluate_terms, evaluate_polynomial, generate_commitments, commitment_terms,
  verify_commitments,
}

module _ (c : Curve) where
  infixl 65 ◌⊕◌ ◌⊞◌
  infixl 70 ◌⊗◌
  infixl 75 ◌⊙◌
  open c use {
    Scalar, zero_scalar, ◌⊕◌, ◌⊗◌, from, pow, G1Projective, G1Affine, identity, generator, ◌⊞◌, ◌⊙◌,
    point_eq, to_affine, to_projective, scale-add, scale-mul, scale-zero, point_eq_iff,
    generator_injective, to_projective-to_affine,
  }

  commitment_terms-generator :
      (x : Scalar) (j : ℕ) (a : Scalar) (coeffs : List Scalar)
      → commitment_terms c x j (generator ⊙ a) (generate_commitments c coeffs)
        ≡ generator ⊙ evaluate_terms c x j a coeffs
  unfolding commitment_terms generate_commitments evaluate_terms
  commitment_terms-generator x j a [] = refl
  commitment_terms-generator x j a (coeff ∷ coeffs) =
      ap (λ p. commitment_terms c x (suc j) p (generate_commitments c coeffs))
        (ap (λ p. generator ⊙ a ⊞ p ⊙ pow x j) (to_projective-to_affine (generator ⊙ coeff))
          ∙ ap (λ p. generator ⊙ a ⊞ p) (scale-mul generator coeff (pow x j))
          ∙ sym (scale-add generator a (coeff ⊗ pow x j)))
      ∙ commitment_terms-generator x (suc j) (a ⊕ coeff ⊗ pow x j) coeffs

  -- The sum that the verifier computes is the generator times the value of the polynomial.
  pub commitment_terms-evaluate_polynomial :
      (coeffs : List Scalar) (i : ℕ)
      → commitment_terms c (from i) 0 identity (generate_commitments c coeffs)
        ≡ generator ⊙ evaluate_polynomial c coeffs i
  unfolding evaluate_polynomial
  commitment_terms-evaluate_polynomial coeffs i =
      ap (λ p. commitment_terms c (from i) 0 p (generate_commitments c coeffs))
        (sym (scale-zero generator))
      ∙ commitment_terms-generator (from i) 0 zero_scalar coeffs

  -- With its own share at hand the verifier answers by comparing two points.
  pub verify_commitments-at :
      (node : AdkgNode c) (sender_id : String) (shares : List Scalar) (commitments : List G1Affine)
      (share : Scalar)
      → 1 ≤ node.idx
      → node.idx ≤ length shares
      → get_elem? shares (node.idx - 1) ≡ some share
      → verify_commitments c node sender_id shares commitments
        ≡ ok (
            point_eq
              (commitment_terms c (from node.idx) 0 identity commitments)
              (generator ⊙ share))
  unfolding verify_commitments
  verify_commitments-at node sender_id shares commitments share lo hi e = ground arith

  -- A node with index 0, or beyond the list of shares, rejects every proposal.
  pub verify_commitments_outside :
      (node : AdkgNode c) (sender_id : String) (shares : List Scalar) (commitments : List G1Affine)
      → (node.idx ≡ 0) ⊎ (length shares < node.idx)
      → verify_commitments c node sender_id shares commitments ≡ ok false
  unfolding verify_commitments
  verify_commitments_outside node sender_id shares commitments h = ground arith

  -- Against the commitments to a polynomial a node, whose index is between 1 and the number of
  -- shares, accepts exactly the value of that polynomial at its own index: an honest dealer's
  -- share passes, and any other scalar is rejected.
  pub verify_commitments_iff :
      (node : AdkgNode c) (sender_id : String) (coeffs shares : List Scalar) (share : Scalar)
      → 1 ≤ node.idx
      → node.idx ≤ length shares
      → get_elem? shares (node.idx - 1) ≡ some share
      → (verify_commitments c node sender_id shares (generate_commitments c coeffs) ≡ ok true)
        ↔ (share ≡ evaluate_polynomial c coeffs node.idx)
  verify_commitments_iff node sender_id coeffs shares share lo hi e = (sound, complete)
    where
      value : G1Projective
      value = commitment_terms c (from node.idx) 0 identity (generate_commitments c coeffs)

      honest : value ≡ generator ⊙ evaluate_polynomial c coeffs node.idx
      honest = commitment_terms-evaluate_polynomial coeffs node.idx

      answer :
          verify_commitments c node sender_id shares (generate_commitments c coeffs)
          ≡ ok (point_eq value (generator ⊙ share))
      answer =
          verify_commitments-at node sender_id shares (generate_commitments c coeffs) share lo hi e

      sound :
          verify_commitments c node sender_id shares (generate_commitments c coeffs) ≡ ok true
          → share ≡ evaluate_polynomial c coeffs node.idx
      sound h =
          let passed : point_eq value (generator ⊙ share) ≡ true = cc (answer, h) in
          generator_injective share (evaluate_polynomial c coeffs node.idx)
            (sym ((point_eq_iff value (generator ⊙ share)).0 passed) ∙ honest)

      complete :
          share ≡ evaluate_polynomial c coeffs node.idx
          → verify_commitments c node sender_id shares (generate_commitments c coeffs) ≡ ok true
      complete h =
          answer
          ∙ ap ok (
              (point_eq_iff value (generator ⊙ share)).1 (honest ∙ ap (λ s. generator ⊙ s) (sym h)))
