-- ===== src/Adkg/UnitTests.antt =====
-- The tests at the end of src/adkg_layer.bkp.rs, for every sequence of scalars that the generator can
-- draw.
use mpc_node.Common.{
  ℕ, ◌≡◌, ◌≢◌, refl, ap, ◌∙◌, String, true, Option-cases, inl, inr, List, [], ◌∷◌, map, range_from,
  length, get_elem?, none, some, arith, ok, Outcome,
}
use mpc_node.Common.HashMap.{lookup, lookup-insert}
use mpc_node.Crypto.{Curve}
use mpc_node.Wire.{Json, Gossip, Bytes}
use mpc_node.Adkg.{
  AdkgMessage, World, new, share_proposal, share_ack, generate_polynomial, generate_commitments,
  evaluate_polynomial, verify_commitments, reconstruct_secret, handle_message, publish,
}
use mpc_node.Adkg.Backed.{verify_commitments-true}
use mpc_node.Adkg.Feldman.{verify_commitments_iff}
use mpc_node.Adkg.Reconstruct.{reconstruct_secret-evaluate_polynomial}
use mpc_node.Adkg.Weights.{Apart}
use mpc_node.Adkg.Received.{accepted_node}

module _ (c : Curve) where
  open c use {Scalar, G1Affine}

  abbrev drawn : (ℕ → Scalar) → List Scalar
  drawn rng = (generate_polynomial c rng 2).0

  abbrev drawn_shares : (ℕ → Scalar) → List Scalar
  drawn_shares rng = map (evaluate_polynomial c (drawn rng)) (range_from 1 3)

  unfoldable pub TestPolynomialGeneration : (ℕ → Scalar) → Type 0
  TestPolynomialGeneration rng =
      (length (drawn rng) ≡ 3) × (get_elem? (drawn rng) 0 ≡ some (generate_polynomial c rng 2).1)

  unfoldable pub TestCommitmentVerification : (ℕ → Scalar) → Type 0
  TestCommitmentVerification rng =
      verify_commitments c (new c "test" 3 1 1) "test" (drawn_shares rng)
        (generate_commitments c (drawn rng))
      ≡ ok true

  unfoldable pub TestSecretReconstruction : (ℕ → Scalar) → Type 0
  TestSecretReconstruction rng =
      reconstruct_secret c (map (λ i. (i, evaluate_polynomial c (drawn rng) i)) (range_from 1 3))
      ≡ some (generate_polynomial c rng 2).1

  -- Where 1, 2 and 3 are different scalars, the tests of the generation, of the verification and of the
  -- reconstruction pass whatever the generator draws.
  pub tests_pass :
      (rng : ℕ → Scalar)
      → Apart c (1 ∷ 2 ∷ 3 ∷ [])
      → TestPolynomialGeneration rng × TestCommitmentVerification rng × TestSecretReconstruction rng
  unfolding TestPolynomialGeneration TestCommitmentVerification TestSecretReconstruction
      generate_polynomial
  tests_pass rng apart = (
    (refl, refl),
    (verify_commitments_iff c (new c "test" 3 1 1) "test" (drawn rng) (drawn_shares rng)
          (evaluate_polynomial c (drawn rng) 1) (omega arith) (omega arith) refl).1
        refl,
    reconstruct_secret-evaluate_polynomial c (rng 0) (map rng (range_from 1 2)) (1 ∷ 2 ∷ 3 ∷ [])
        apart (omega arith),
  )

module _ (c : Curve) (g : Gossip) (json : Json (AdkgMessage c)) where
  open c use {Scalar}

  -- What `test_share_proposal_handling` looks at: the outcome and the node after the proposal.
  unfoldable pub proposal_handled : (ℕ → Scalar) → g.Swarm → Outcome (Unit {0}) × World c g
  proposal_handled rng swarm =
      handle_message c g json
        (share_proposal "sender" (drawn_shares c rng) (generate_commitments c (drawn c rng)))
        (record { node = new c "receiver" 3 1 1; swarm = swarm })

  accepted_refused :
      (w : World c g) (sender_id : String) (shares : List Scalar) (commitments : List c.G1Affine)
      → verify_commitments c w.node sender_id shares commitments ≡ ok true
      → ((bytes : Bytes) → g.publish w.swarm "/adkg/1.0.0" bytes ≡ none)
      → (handle_message c g json (share_proposal sender_id shares commitments) w).0 ≢ ok tt
  unfolding handle_message publish
  accepted_refused w sender_id shares commitments v refuses =
      let (share, lo, hi, at, fits) =
        verify_commitments-true c w.node sender_id shares commitments v in
      elim (Option-cases (json.to_vec (share_ack w.node.id sender_id true))) [
        | inl e ↦ λ h. ground (arith, h, v, at, lo, hi, e)
        | inr (bytes, e) ↦ λ h. ground (arith, h, v, at, lo, hi, e, refuses bytes)
      ]

  -- The test of a proposal fails on a swarm that refuses to publish, as one without peers does: the
  -- result is no value, although the share is stored.
  pub proposal_handled_refused :
      (rng : ℕ → Scalar) (swarm : g.Swarm)
      → ((bytes : Bytes) → g.publish swarm "/adkg/1.0.0" bytes ≡ none)
      → ((proposal_handled rng swarm).0 ≢ ok tt)
        × (lookup "sender" (proposal_handled rng swarm).1.node.shares
            ≡ some (evaluate_polynomial c (drawn c rng) 1))
  unfolding proposal_handled
  proposal_handled_refused rng swarm refuses = (
    accepted_refused world "sender" (drawn_shares c rng) (generate_commitments c (drawn c rng))
        verified refuses,
    ap (λ n. lookup "sender" n.shares)
          (accepted_node c g json world "sender" (drawn_shares c rng)
            (generate_commitments c (drawn c rng)) (evaluate_polynomial c (drawn c rng) 1)
            (omega arith) (omega arith) refl verified)
        ∙ lookup-insert "sender" "sender" (evaluate_polynomial c (drawn c rng) 1) [],
  )
    where
      world : World c g
      world = record { node = new c "receiver" 3 1 1; swarm = swarm }

      verified :
          verify_commitments c world.node "sender"
            (drawn_shares c rng)
            (generate_commitments c (drawn c rng))
          ≡ ok true
      verified =
          (verify_commitments_iff c world.node "sender" (drawn c rng) (drawn_shares c rng)
              (evaluate_polynomial c (drawn c rng) 1) (omega arith) (omega arith) refl).1
            refl
