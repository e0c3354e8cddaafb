-- ===== src/Adkg/Agreement.antt =====
-- Several nodes of src/adkg_layer.bkp.rs that complete with the same dealers: what their key shares
-- and public keys have to do with one another.
use mpc_node.Common.{
  ℕ, ◌+◌, ◌≤◌, ◌≡◌, refl, ap, ap₂, ◌∙◌, String, true, List, [], ◌∷◌, map, length, length-map, arith,
  none, some, All, Option,
}
use mpc_node.Crypto.{Curve}
use mpc_node.Crypto.Field.{sum}
use mpc_node.Wire.{Json, Gossip}
use mpc_node.Adkg.{
  AdkgMessage, AdkgNode, World, share_ack, evaluate_polynomial, count_valid, handle_message,
  reconstruct_secret,
}
use mpc_node.Adkg.Weights.{Apart}
use mpc_node.Adkg.Polynomial
use mpc_node.Adkg.Reconstruct.{key_share, group_secret, reconstruct_secret-key_share}
use mpc_node.Adkg.Protocol.{
  Dealer, coeffs, dealt_shares, dealt_commitments, handle_message_completes,
}

module _ (c : Curve) where
  open c use {Scalar}

  -- The index and the key share of a node that has one.
  abbrev pub contribution : ℕ → Option Scalar → List (ℕ × Scalar) → List (ℕ × Scalar)
  contribution idx none rest = rest
  contribution idx (some share) rest = (idx, share) ∷ rest

  -- What the nodes can put together: the pairs of index and key share.
  abbrev pub contributions : List (AdkgNode c) → List (ℕ × Scalar)
  contributions [] = []
  contributions (node ∷ nodes) = contribution node.idx node.secret_key_share (contributions nodes)

  abbrev pub share_of : List (Dealer c) → ℕ → Scalar
  share_of dealers idx = sum c (map (λ d. evaluate_polynomial c (coeffs c d) idx) dealers)

  pub share_of-key_share :
      (dealers : List (Dealer c)) (idx : ℕ)
      → share_of dealers idx ≡ key_share c (map (coeffs c) dealers) idx
  share_of-key_share [] idx = refl
  share_of-key_share (d ∷ dealers) idx =
      ap (λ s. c.◌⊕◌ (evaluate_polynomial c (coeffs c d) idx) s) (share_of-key_share dealers idx)

  pub secret_of_dealers :
      (dealers : List (Dealer c))
      → group_secret c (map (coeffs c) dealers) ≡ sum c (map (λ d. d.1) dealers)
  secret_of_dealers [] = refl
  secret_of_dealers (d ∷ dealers) =
      ap₂ (λ x s. c.◌⊕◌ x s) (Polynomial.horner-zero c d.1 d.2) (secret_of_dealers dealers)

  pub lengths_kept :
      (n m : ℕ) (dealers : List (Dealer c))
      → n ≡ m
      → All (λ d. length (coeffs c d) ≤ m) dealers
      → All (λ (p : List Scalar). length p ≤ n) (map (coeffs c) dealers)
  lengths_kept n m [] e h = tt
  lengths_kept n m (d ∷ dealers) e h = (omega (arith, e, h.0), lengths_kept n m dealers e h.1)

module _ (c : Curve) (g : Gossip) (json : Json (AdkgMessage c)) where
  infixl 75 ◌⊙◌
  open c use {Scalar, generator, ◌⊙◌}

  -- The node holds what these dealers gave to it, and one valid acknowledgement is missing at most.
  abbrev pub IsReady : List (Dealer c) → World c g → Type 0
  IsReady dealers w =
      (w.node.shares ≡ dealt_shares c w.node.idx dealers)
      × (w.node.commitments ≡ dealt_commitments c dealers)
      × (w.node.t ≤ count_valid c w.node.acks + 1)

  -- The node after one more acknowledgement.
  abbrev pub acknowledged : String → World c g → AdkgNode c
  acknowledged sender_id w = (handle_message c g json (share_ack sender_id w.node.id true) w).1.node

  contributions-acknowledged :
      (dealers : List (Dealer c)) (sender_id : String) (worlds : List (World c g))
      → All (IsReady dealers) worlds
      → contributions c (map (acknowledged sender_id) worlds)
        ≡ map (λ i. (i, key_share c (map (coeffs c) dealers) i)) (map (λ w. w.node.idx) worlds)
  contributions-acknowledged dealers sender_id [] ready = refl
  contributions-acknowledged dealers sender_id (w ∷ worlds) ready =
      let done =
        handle_message_completes c g json w sender_id dealers ready.0.0 ready.0.1 ready.0.2 in
      ap₂ (λ i s. contribution c i s (contributions c (map (acknowledged sender_id) worlds)))
        (ap (λ r. r.1.node.idx) done) (ap (λ r. r.1.node.secret_key_share) done)
      ∙ ap₂ (λ s rest. (w.node.idx, s) ∷ rest) (share_of-key_share c dealers w.node.idx)
          (contributions-acknowledged dealers sender_id worlds ready.1)

  public_keys :
      (dealers : List (Dealer c)) (sender_id : String) (worlds : List (World c g))
      → All (IsReady dealers) worlds
      → All
          (λ w.
            (acknowledged sender_id w).public_key
            ≡ some (generator ⊙ sum c (map (λ d. d.1) dealers)))
          worlds
  public_keys dealers sender_id [] ready = tt
  public_keys dealers sender_id (w ∷ worlds) ready = (
    ap (λ r. r.1.node.public_key)
        (handle_message_completes c g json w sender_id dealers ready.0.0 ready.0.1 ready.0.2),
    public_keys dealers sender_id worlds ready.1,
  )

  -- Nodes that hold what the same dealers gave to them, in one order, with indices that stand for pairwise
  -- different scalars, and that are each acknowledged up to the threshold: if no polynomial has
  -- more coefficients than there are nodes, the key shares that they end with reconstruct the sum
  -- of the dealers' secrets, and every node's public key is the generator times that sum.
  pub reconstruct_secret-acknowledged :
      (dealers : List (Dealer c)) (sender_id : String) (worlds : List (World c g))
      → All (IsReady dealers) worlds
      → Apart c (map (λ w. w.node.idx) worlds)
      → All (λ d. length (coeffs c d) ≤ length worlds) dealers
      → (reconstruct_secret c (contributions c (map (acknowledged sender_id) worlds))
          ≡ some (sum c (map (λ d. d.1) dealers)))
        × All
            (λ w.
              (acknowledged sender_id w).public_key
              ≡ some (generator ⊙ sum c (map (λ d. d.1) dealers)))
            worlds
  reconstruct_secret-acknowledged dealers sender_id worlds ready apart enough = (
    ap (reconstruct_secret c) (contributions-acknowledged dealers sender_id worlds ready)
        ∙ reconstruct_secret-key_share c (map (coeffs c) dealers) (map (λ w. w.node.idx) worlds)
            apart
            (lengths_kept c (length (map (λ (w : World c g). w.node.idx) worlds)) (length worlds)
              dealers (length-map (λ (w : World c g). w.node.idx) worlds) enough)
        ∙ ap some (secret_of_dealers c dealers),
    public_keys dealers sender_id worlds ready,
  )
