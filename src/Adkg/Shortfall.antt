-- ===== src/Adkg/Shortfall.antt =====
-- All the nodes of a run of src/adkg_layer.bkp.rs, from their start to their completion: what their
-- key shares put together are, against the secret that belongs to the public key.
use mathlib.Core.List.{Permᴰ}
use mpc_node.Common.{
  ℕ, ◌+◌, ◌≤◌, ◌≡◌, ◌≢◌, refl, sym, ap, ap₂, ◌∙◌, String, true, List, [], ◌∷◌, map, length,
  length-map, length-range_from, some, ok, arith, All, range_from, Outcome,
}
use mpc_node.Crypto.{Curve}
use mpc_node.Crypto.Field.{sum}
use mpc_node.Crypto.Points.{sum-map-perm}
use mpc_node.Wire.{Json, Gossip}
use mpc_node.Adkg.{AdkgMessage, AdkgNode, World, share_ack, evaluate_polynomial, reconstruct_secret}
use mpc_node.Adkg.Weights.{Apart, weight, weighted, weighted-add, weighted_congr}
use mpc_node.Adkg.Reconstruct.{
  key_share, reconstruct_secret-weighted, weighted-key_share, with_values,
}
use mpc_node.Adkg.Agreement.{
  contribution, contributions, share_of, share_of-key_share, secret_of_dealers, lengths_kept,
}
use mpc_node.Adkg.Delivery.{Distinct}
use mpc_node.Adkg.Protocol.{Arrival, dealers_of, IsTaken, Dealer, coeffs, proposal_of}
use mpc_node.Adkg.Start.{own_dealer}
use mpc_node.Adkg.Ceremony.{attend, new_world, attend-IsDone}

module _ (c : Curve) where
  infixl 65 ◌⊕◌
  infixl 70 ◌⊗◌
  open c use {Scalar, ◌⊕◌, ◌⊗◌}

  -- Functions that agree at the points have one weighted sum over them.
  weighted_congr_on :
      (all : List ℕ) (f g : ℕ → Scalar) (pts : List ℕ)
      → All (λ i. f i ≡ g i) pts
      → weighted c all f pts ≡ weighted c all g pts
  unfolding weighted
  weighted_congr_on all f g [] h = refl
  weighted_congr_on all f g (i ∷ pts) h =
      ap₂ (λ x y. x ⊗ weight c all i ⊕ y) h.0 (weighted_congr_on all f g pts h.1)

  -- The pieces `f` and `g` of the key shares of these dealers reconstruct two pieces of their secret.
  reconstruct_secret_pieces :
      (dealers : List (Dealer c)) (f g : ℕ → Scalar) (indices : List ℕ)
      → Apart c indices
      → All (λ d. length (coeffs c d) ≤ length indices) dealers
      → All (λ i. f i ⊕ g i ≡ share_of c dealers i) indices
      → (r : Scalar) × (s : Scalar) × (reconstruct_secret c (with_values c f indices) ≡ some r)
        × (reconstruct_secret c (with_values c g indices) ≡ some s)
        × (r ⊕ s ≡ sum c (map (λ d. d.1) dealers))
  reconstruct_secret_pieces dealers f g indices apart enough pieces = (
    weighted c indices f indices,
    weighted c indices g indices,
    reconstruct_secret-weighted c f indices apart,
    reconstruct_secret-weighted c g indices apart,
    sym (weighted-add c indices f g indices)
        ∙ weighted_congr_on indices (λ i. f i ⊕ g i) (share_of c dealers) indices pieces
        ∙ weighted_congr c indices indices (share_of c dealers)
            (key_share c (map (coeffs c) dealers)) indices (λ i. refl)
            (share_of-key_share c dealers)
        ∙ weighted-key_share c (map (coeffs c) dealers) indices apart
            (lengths_kept c (length indices) (length indices) dealers refl enough)
        ∙ secret_of_dealers c dealers,
  )

module _ (c : Curve) (g : Gossip) (json : Json (AdkgMessage c)) where
  infixl 65 ◌⊕◌
  infixl 75 ◌⊙◌
  open c use {Scalar, ◌⊕◌, generator, ◌⊙◌}

  module _ (n t : ℕ) (swarm : ℕ → g.Swarm) (name : ℕ → String) (rng : ℕ → ℕ → Scalar)
      (arrivals : ℕ → List (Arrival c g json)) (senders : ℕ → List String) (indices : List ℕ) where
    -- The dealers that the node with index `i` hears.
    abbrev pub heard : ℕ → List (Dealer c)
    heard i = dealers_of c g json (arrivals i)

    -- The node with index `i` as a dealer: its name, and the polynomial that it draws.
    abbrev pub own : ℕ → Dealer c
    own i = own_dealer c g json (new_world c g json (name i) n t i (swarm i)) (rng i)

    -- How the run of the node with index `i` ends.
    abbrev pub end : ℕ → Outcome (Unit {0}) × World c g
    end i =
        attend c g json (rng i) (arrivals i) (senders i)
          (new_world c g json (name i) n t i (swarm i))

    abbrev pub end_node : ℕ → AdkgNode c
    end_node i = (end i).1.node

    -- The node with index `i` hears every other node's proposal once, in any order, and is
    -- acknowledged often enough; each of its own messages can be written and is published.
    pub record Attends (i : ℕ) : Type 0 where
      pub lower : 1 ≤ i
      pub upper : i ≤ n
      pub distinct : Distinct c (heard i)
      pub others : All (λ d. d.0 ≢ name i) (heard i)
      pub everyone : Permᴰ (own i ∷ heard i) (map own indices)
      pub enough : t ≤ length (senders i)
      pub taken : IsTaken c g json (swarm i) (proposal_of c g json n (own i))
      pub taken_acks :
          All (λ a. IsTaken c g json a.swarm (share_ack (name i) a.dealer.0 true)) (arrivals i)

    -- The secret that no node has: the sum of the secrets of all the nodes.
    abbrev pub joint_secret : Scalar
    joint_secret = sum c (map (λ d. d.1) (map own indices))

    -- What the node with index `i` would have to add to its key share: its own polynomial there.
    abbrev pub own_share : ℕ → Scalar
    own_share i = evaluate_polynomial c (coeffs c (own i)) i

    abbrev IsEnded : ℕ → Type 0
    IsEnded i =
        ((end i).0 ≡ ok tt)
        × ((end_node i).idx ≡ i)
        × ((end_node i).secret_key_share ≡ some (share_of c (heard i) i))
        × ((end_node i).public_key ≡ some (generator ⊙ joint_secret))

    attend_one : (i : ℕ) → 1 ≤ t → Attends i → IsEnded i
    attend_one i lo a =
        let (returns, indexed, done) =
          attend-IsDone c g json (name i) n t i (swarm i) (rng i) (arrivals i) (senders i) lo
            a.lower a.upper a.distinct a.others a.enough a.taken a.taken_acks in
        (
          returns,
          indexed,
          done.0,
          done.1
              ∙ ap (λ s. some (generator ⊙ s)) (sum-map-perm c (λ (d : Dealer c). d.1) a.everyone),
        )

    attend_each : (is : List ℕ) → 1 ≤ t → All Attends is → All IsEnded is
    attend_each [] lo h = tt
    attend_each (i ∷ is) lo h = (attend_one i lo h.0, attend_each is lo h.1)

    contributions-end :
        (is : List ℕ)
        → All IsEnded is
        → contributions c (map end_node is) ≡ with_values c (λ i. share_of c (heard i) i) is
    contributions-end [] h = refl
    contributions-end (i ∷ is) h =
        let (returns, indexed, share, key) = h.0 in
        ap₂ (λ k s. contribution c k s (contributions c (map end_node is))) indexed share
        ∙ ap (λ rest. (i, share_of c (heard i) i) ∷ rest) (contributions-end is h.1)

    pieces_of_each :
        (is : List ℕ)
        → All Attends is
        → All (λ i. share_of c (heard i) i ⊕ own_share i ≡ share_of c (map own indices) i) is
    pieces_of_each [] h = tt
    pieces_of_each (i ∷ is) h = (
      c.add_comm (share_of c (heard i) i) (own_share i)
          ∙ sum-map-perm c (λ (d : Dealer c). evaluate_polynomial c (coeffs c d) i) h.0.everyone,
      pieces_of_each is h.1,
    )

    lengths_of_each :
        (m : ℕ) (is : List ℕ) → t + 1 ≤ m → All (λ d. length (coeffs c d) ≤ m) (map own is)
    lengths_of_each m [] h = tt
    lengths_of_each m (i ∷ is) h = (
      omega (arith, h, length-map (rng i) (range_from 1 t), length-range_from 1 t),
      lengths_of_each m is h,
    )

    public_keys_agree :
        (is : List ℕ)
        → All IsEnded is
        → All
            (λ i. ((end i).0 ≡ ok tt) × ((end_node i).public_key ≡ some (generator ⊙ joint_secret)))
            is
    public_keys_agree [] h = tt
    public_keys_agree (i ∷ is) h =
        let (returns, indexed, share, key) = h.0 in ((returns, key), public_keys_agree is h.1)

    -- The nodes of a key generation, with indices from 1 to `n` that stand for pairwise different
    -- scalars, are more than the positive threshold `t`. Each of them deals, takes every other
    -- node's proposal once, in any order, and then at least `t` acknowledgements; each of its own
    -- messages can be written and is published in the swarm as it is at that moment. Then no call
    -- fails, and the nodes have one and the same public key: the generator times the sum of all
    -- nodes' secrets. And the key shares of all the nodes reconstruct a scalar that misses that sum
    -- by exactly what the nodes' values of their own polynomials reconstruct.
    pub attend_falls_short :
        1 ≤ t
        → Apart c indices
        → t + 1 ≤ length indices
        → All Attends indices
        → All
            (λ i. ((end i).0 ≡ ok tt) × ((end_node i).public_key ≡ some (generator ⊙ joint_secret)))
            indices
          × (r : Scalar) × (missing : Scalar) × (reconstruct_secret c
                (contributions c (map end_node indices))
              ≡ some r)
          × (reconstruct_secret c (with_values c own_share indices) ≡ some missing)
          × (r ⊕ missing ≡ joint_secret)
    attend_falls_short lo apart enough all =
        let ended = attend_each indices lo all in
        let (r, missing, e, e', total) =
          reconstruct_secret_pieces c (map own indices) (λ i. share_of c (heard i) i) own_share
            indices apart (lengths_of_each (length indices) indices enough)
            (pieces_of_each indices all) in
        (
          public_keys_agree indices ended,
          r,
          missing,
          ap (reconstruct_secret c) (contributions-end indices ended) ∙ e,
          e',
          total,
        )
