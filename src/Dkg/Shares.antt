-- ===== src/Dkg/Shares.antt =====
-- What src/dkg/mod.rs deals out: the shares, the commitments, and the message that carries them.
use mpc_node.Common.{
  ℕ, suc, All, refl, ◌+◌, ◌≤◌, ◌<◌, ◌≡◌, ap, ◌∙◌, List, [], ◌∷◌, ◌++◌, map, length, range_from,
  length-map, length-range_from, some, arith, ok, blocked, true,
}
use mpc_node.Crypto.{Curve}
use mpc_node.Wire.{Json, Bytes}
use mpc_node.Channel.{send}
use mpc_node.Types.{KeyShare, GossipsubMessage, DkgStatus, broadcast, share_distribution, dkg}
use mpc_node.Adkg.{evaluate_polynomial, reconstruct_secret}
use mpc_node.Adkg
use mpc_node.Adkg.Feldman
use mpc_node.Adkg.Backed.{committed_at}
use mpc_node.Adkg.Weights.{Apart}
use mpc_node.Adkg.Reconstruct
use mpc_node.Dkg.{
  DkgNode, World, generate_shares, generate_polynomial, generate_commitments, start_dkg,
  msg_topic_dkg,
}

module _ (c : Curve) where
  infixl 75 ◌⊙◌
  open c use {Scalar, generator, ◌⊙◌}

  pub length-generate_polynomial :
      (node : DkgNode c) (rng : ℕ → Scalar)
      → length (generate_polynomial c node rng) ≡ node.threshold + 1
  unfolding generate_polynomial
  length-generate_polynomial node rng =
      length-map rng (range_from 0 (node.threshold + 1)) ∙ length-range_from 0 (node.threshold + 1)

  first_coefficient :
      (node : DkgNode c) (rng : ℕ → Scalar)
      → (rest : List Scalar) × (generate_polynomial c node rng ≡ rng 0 ∷ rest)
  unfolding generate_polynomial
  first_coefficient node rng = (
    map rng (range_from 1 node.threshold),
    ap (λ (n : ℕ). map rng (range_from 0 n)) {y = suc node.threshold} (omega arith),
  )

  -- A share and the commitments to the coefficients, as a receiver could compare them.
  abbrev pub Fits : List c.G1Affine → KeyShare c → Type 0
  Fits commitments share = committed_at c share.index commitments ≡ generator ⊙ share.value

  share-Fits :
      (polynomial : List Scalar) (i : ℕ)
      → Fits
          (generate_commitments c polynomial)
          (record { index = i; value = evaluate_polynomial c polynomial i })
  unfolding generate_commitments Adkg.generate_commitments
  share-Fits polynomial i = Feldman.commitment_terms-evaluate_polynomial c polynomial i

  shares-Fits :
      (polynomial : List Scalar) (is : List ℕ)
      → All
          (Fits (generate_commitments c polynomial))
          (map (λ i. record { index = i; value = evaluate_polynomial c polynomial i }) is)
  shares-Fits polynomial [] = tt
  shares-Fits polynomial (i ∷ is) = (share-Fits polynomial i, shares-Fits polynomial is)

  abbrev pub pair : KeyShare c → ℕ × Scalar
  pair share = (share.index, share.value)

  abbrev indexed_value : List Scalar → ℕ → ℕ × Scalar
  indexed_value polynomial i = (i, evaluate_polynomial c polynomial i)

  indexed_values :
      (polynomial : List Scalar) (is : List ℕ)
      → map pair (map (λ i. record { index = i; value = evaluate_polynomial c polynomial i }) is)
        ≡ map (indexed_value polynomial) is
  indexed_values polynomial [] = refl
  indexed_values polynomial (i ∷ is) =
      ap (λ l. indexed_value polynomial i ∷ l) (indexed_values polynomial is)

  -- The shares that a node deals out, one for each of `total_nodes`: each fits the commitments that
  -- it sends along, the point that they commit to at the share's index. And where there are
  -- more nodes than the threshold, with indices that stand for pairwise different scalars,
  -- the dealt shares interpolate at zero to the secret of the node, the first scalar that it drew.
  pub generate_shares-fit :
      (node : DkgNode c) (rng : ℕ → Scalar)
      → Apart c (range_from 1 node.total_nodes)
      → node.threshold + 1 ≤ node.total_nodes
      → (length (generate_shares c node (generate_polynomial c node rng)) ≡ node.total_nodes)
        × All
            (Fits (generate_commitments c (generate_polynomial c node rng)))
            (generate_shares c node (generate_polynomial c node rng))
        × (reconstruct_secret c (map pair (generate_shares c node (generate_polynomial c node rng)))
            ≡ some (rng 0))
  unfolding generate_shares
  generate_shares-fit node rng apart enough =
      let (rest, e) = first_coefficient node rng in
      let is = range_from 1 node.total_nodes in
      let polynomial = generate_polynomial c node rng in
      (
        length-map _ is ∙ length-range_from 1 node.total_nodes,
        shares-Fits polynomial is,
        ap (reconstruct_secret c) (indexed_values polynomial is)
            ∙ ap (λ p. reconstruct_secret c (map (indexed_value p) is)) e
            ∙ Reconstruct.reconstruct_secret-evaluate_polynomial c (rng 0) rest is apart (
                omega (
                  arith,
                  enough,
                  ap length e,
                  length-generate_polynomial node rng,
                  length-range_from 1 node.total_nodes,
                )),
      )

module _ (c : Curve) (json : Json (GossipsubMessage c)) where
  -- A start whose message can be written and that the channel has room for: the status is
  -- `Started`, and exactly one message is queued, on the DKG topic, with the node's shares and
  -- commitments.
  pub start_dkg_broadcasts :
      (w : World c) (rng : ℕ → c.Scalar) (bytes : Bytes)
      → w.channel.receiving ≡ true
      → length w.channel.queue < w.channel.capacity
      → json.to_vec (
          dkg (
            share_distribution w.node.id
              (generate_shares c w.node (generate_polynomial c w.node rng))
              (generate_commitments c (generate_polynomial c w.node rng))))
        ≡ some bytes
      → start_dkg c json rng w ≡ (
        ok tt,
        record {
          node = record w.node { status = DkgStatus.started };
          channel = record w.channel {
            queue = w.channel.queue ++ broadcast msg_topic_dkg bytes ∷ [];
          };
        },
      )
  unfolding start_dkg send
  start_dkg_broadcasts w rng bytes open_channel room e = ground (arith, open_channel, room, e)

  -- A start whose message can be written, on a full channel, waits for ever, with the status
  -- changed and nothing queued.
  pub start_dkg_blocks :
      (w : World c) (rng : ℕ → c.Scalar) (bytes : Bytes)
      → w.channel.receiving ≡ true
      → w.channel.capacity ≤ length w.channel.queue
      → json.to_vec (
          dkg (
            share_distribution w.node.id
              (generate_shares c w.node (generate_polynomial c w.node rng))
              (generate_commitments c (generate_polynomial c w.node rng))))
        ≡ some bytes
      → start_dkg c json rng w
        ≡ (blocked, record w { node = record w.node { status = DkgStatus.started } })
  unfolding start_dkg send
  start_dkg_blocks w rng bytes open_channel full e = ground (arith, open_channel, full, e)
