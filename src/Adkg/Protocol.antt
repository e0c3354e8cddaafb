-- ===== src/Adkg/Protocol.antt =====
-- A whole run of src/adkg_layer.bkp.rs at one node: the proposals of honest dealers come in, then
-- acknowledgements, until the node has its key share and the public key.
use mpc_node.Common.{
  ℕ, ◌-◌, ◌+◌, ◌≤◌, ◌≡◌, refl, ap, ap₂, ◌∙◌, String, true, List, [], ◌∷◌, map, length, get_elem?,
  get_elem?-map, get_elem?-range_from, range_from, length-map, length-range_from, some, arith, ok,
  Io, pure, modify, ◌>>◌,
}
use mpc_node.Common.HashMap.{HashMap, values}
use mpc_node.Crypto.{Curve}
use mpc_node.Crypto.Field.{sum}
use mpc_node.Crypto.Points
use mpc_node.Crypto.Points.{accumulate}
use mpc_node.Wire.{Json, Gossip, Bytes}
use mpc_node.Adkg.{
  add_first_commitments, AdkgMessage, World, share_proposal, share_ack, evaluate_polynomial,
  generate_commitments, count_valid, push_ack, handle_message,
}
use mpc_node.Adkg.Feldman.{verify_commitments_iff}
use mpc_node.Adkg.Completion.{
  add_first_commitments-accumulate, stored, handle_message_accepted, handle_message_own_ack,
  check_completion_done,
}
use mpc_node.Adkg.Acks.{count_valid-push_ack}

module _ (c : Curve) where
  infixl 75 ◌⊙◌
  open c use {Scalar, G1Affine, generator, ◌⊙◌, to_affine, to_projective, identity, zero_scalar}

  -- A dealer: its name, its secret, and the other coefficients of its polynomial.
  abbrev pub Dealer : Type 0
  Dealer = String × Scalar × List Scalar

  abbrev pub coeffs : Dealer → List Scalar
  coeffs d = d.1 ∷ d.2

  -- What a node with index `idx` holds of the dealers.
  abbrev pub dealt_shares : ℕ → List Dealer → HashMap Scalar
  dealt_shares idx = map (λ d. (d.0, evaluate_polynomial c (coeffs d) idx))

  abbrev pub dealt_commitments : List Dealer → HashMap (List G1Affine)
  dealt_commitments = map (λ d. (d.0, generate_commitments c (coeffs d)))

  values-dealt_shares :
      (idx : ℕ) (dealers : List Dealer)
      → values (dealt_shares idx dealers) ≡ map (λ d. evaluate_polynomial c (coeffs d) idx) dealers
  values-dealt_shares idx [] = refl
  values-dealt_shares idx (d ∷ dealers) =
      ap (λ l. evaluate_polynomial c (coeffs d) idx ∷ l) (values-dealt_shares idx dealers)

  first_of_dealer : Dealer → G1Affine × List G1Affine
  first_of_dealer d = (to_affine (generator ⊙ d.1), generate_commitments c d.2)

  values-dealt_commitments :
      (dealers : List Dealer)
      → values (dealt_commitments dealers) ≡ map (λ l. l.0 ∷ l.1) (map first_of_dealer dealers)
  unfolding generate_commitments first_of_dealer
  values-dealt_commitments [] = refl
  values-dealt_commitments (d ∷ dealers) =
      ap (λ l. generate_commitments c (coeffs d) ∷ l) (values-dealt_commitments dealers)

  first_points :
      (dealers : List Dealer)
      → map (λ l. to_projective l.0) (map first_of_dealer dealers)
        ≡ map (λ s. generator ⊙ s) (map (λ d. d.1) dealers)
  unfolding first_of_dealer
  first_points [] = refl
  first_points (d ∷ dealers) =
      ap₂ (λ p l. p ∷ l) (c.to_projective-to_affine (generator ⊙ d.1)) (first_points dealers)

module _ (c : Curve) where
  infixl 75 ◌⊙◌
  open c use {Scalar, generator, ◌⊙◌, identity, zero_scalar}

  pub accumulate-dealt_shares :
      (idx : ℕ) (dealers : List (Dealer c))
      → accumulate c zero_scalar (values (dealt_shares c idx dealers))
        ≡ sum c (map (λ d. evaluate_polynomial c (coeffs c d) idx) dealers)
  accumulate-dealt_shares idx dealers =
      Points.accumulate_zero-sum c (values (dealt_shares c idx dealers))
      ∙ ap (sum c) (values-dealt_shares c idx dealers)

  pub add_first_commitments-dealt :
      (g : Gossip) (json : Json (AdkgMessage c)) (dealers : List (Dealer c)) (w : World c g)
      → add_first_commitments c identity (values (dealt_commitments c dealers)) w
        ≡ (ok (generator ⊙ sum c (map (λ d. d.1) dealers)), w)
  add_first_commitments-dealt g json dealers w =
      ap (λ l. add_first_commitments c identity l w) (values-dealt_commitments c dealers)
      ∙ add_first_commitments-accumulate c g json identity (map (first_of_dealer c) dealers) w
      ∙ ap (λ p. (ok p, w))
          (ap (Points.accumulate_points c identity) (first_points c dealers)
            ∙ Points.accumulate_points-sum c (map (λ d. d.1) dealers))

module _ (c : Curve) (g : Gossip) (json : Json (AdkgMessage c)) where
  open c use {Scalar, generator, ◌⊙◌, zero_scalar, identity}

  infixl 75 ◌⊙◌
  -- The proposal that `start_adkg` publishes, for `n` nodes.
  abbrev pub proposal_of : ℕ → Dealer c → AdkgMessage c
  proposal_of n d =
      share_proposal d.0 (map (evaluate_polynomial c (coeffs c d)) (range_from 1 n))
        (generate_commitments c (coeffs c d))

  -- The proposal of a dealer, and the swarm as it is when the proposal arrives: between two calls of
  -- the node the swarm goes its own way.
  pub record Arrival : Type 0 where
    pub swarm : g.Swarm
    pub dealer : Dealer c

  abbrev pub dealers_of : List Arrival → List (Dealer c)
  dealers_of = map (λ (a : Arrival). a.dealer)

  -- Proposals that arrive one after another.
  unfoldable pub deliver : ℕ → List Arrival → Io (World c g) (Unit {0})
  deliver n [] = pure tt
  deliver n (a ∷ arrivals) = do
    modify (λ (w : World c g). record w { swarm = a.swarm })
    handle_message c g json (proposal_of n a.dealer)
    deliver n arrivals

  -- The message can be written, and a node in this swarm can publish it.
  pub record IsTaken (swarm : g.Swarm) (msg : AdkgMessage c) : Type 0 where
    pub bytes : Bytes
    pub later : g.Swarm
    pub written : json.to_vec msg ≡ some bytes
    pub sent : g.publish swarm "/adkg/1.0.0" bytes ≡ some later

  pub own_share :
      (n idx : ℕ) (d : Dealer c)
      → 1 ≤ idx
      → idx ≤ n
      → get_elem? (map (evaluate_polynomial c (coeffs c d)) (range_from 1 n)) (idx - 1)
        ≡ some (evaluate_polynomial c (coeffs c d) idx)
  own_share n idx d lo hi =
      get_elem?-map (evaluate_polynomial c (coeffs c d)) (range_from 1 n) (idx - 1) idx (
        get_elem?-range_from 1 n (idx - 1) (omega arith)
        ∙ ap some {x = 1 + (idx - 1)} (omega arith))

  pub dealt_length :
      (n : ℕ) (d : Dealer c)
      → length (map (evaluate_polynomial c (coeffs c d)) (range_from 1 n)) ≡ n
  dealt_length n d =
      length-map (evaluate_polynomial c (coeffs c d)) (range_from 1 n) ∙ length-range_from 1 n

  -- An honest dealer's proposal is accepted at every index from 1 to `n`: the node keeps the value
  -- of the dealer's polynomial at its own index, with the dealer's commitments, and acknowledges.
  pub handle_message_honest :
      (w : World c g) (n : ℕ) (d : Dealer c) (bytes : Bytes) (swarm : g.Swarm)
      → 1 ≤ w.node.idx
      → w.node.idx ≤ n
      → json.to_vec (share_ack w.node.id d.0 true) ≡ some bytes
      → g.publish w.swarm "/adkg/1.0.0" bytes ≡ some swarm
      → handle_message c g json (proposal_of n d) w ≡ (
        ok tt,
        record {
          node =
              stored c g json w.node d.0
                (evaluate_polynomial c (coeffs c d) w.node.idx)
                (generate_commitments c (coeffs c d));
          swarm = swarm;
        },
      )
  handle_message_honest w n d bytes swarm lo hi e p =
      handle_message_accepted c g json w d.0 shares (generate_commitments c (coeffs c d)) share
        bytes swarm lo within (own_share n w.node.idx d lo hi)
        ((verify_commitments_iff c w.node d.0 (coeffs c d) shares share lo within
            (own_share n w.node.idx d lo hi)).1
          refl)
        e p
    where
      shares : List Scalar
      shares = map (evaluate_polynomial c (coeffs c d)) (range_from 1 n)

      share : Scalar
      share = evaluate_polynomial c (coeffs c d) w.node.idx

      within : w.node.idx ≤ length shares
      within = omega (arith, dealt_length n d)

  -- The same with the commitments of other dealers than those whose shares the node holds: the two
  -- sums are taken separately.
  pub handle_message_counts :
      (w : World c g) (sender_id : String) (dealers committed : List (Dealer c))
      → w.node.shares ≡ dealt_shares c w.node.idx dealers
      → w.node.commitments ≡ dealt_commitments c committed
      → w.node.t ≤ count_valid c w.node.acks + 1
      → handle_message c g json (share_ack sender_id w.node.id true) w ≡ (
        ok tt,
        record w {
          node = record w.node {
            acks = push_ack c sender_id (sender_id, true) w.node.acks;
            secret_key_share =
                some (sum c (map (λ d. evaluate_polynomial c (coeffs c d) w.node.idx) dealers));
            public_key = some (generator ⊙ sum c (map (λ d. d.1) committed));
          };
        },
      )
  handle_message_counts w sender_id dealers committed sh co enough =
      handle_message_own_ack c g json w sender_id true
      ∙ check_completion_done c g json acked (map (first_of_dealer c) committed)
          (omega (arith, count_valid-push_ack c sender_id true w.node.acks))
          (ap values co ∙ values-dealt_commitments c committed)
      ∙ ap₂
          (λ s p. (
            ok tt,
            record acked {
              node = record acked.node { secret_key_share = some s; public_key = some p };
            },
          ))
          (Points.accumulate_zero-sum c (values w.node.shares)
            ∙ ap (sum c) (ap values sh ∙ values-dealt_shares c w.node.idx dealers))
          (ap (Points.accumulate_points c identity) (first_points c committed)
            ∙ Points.accumulate_points-sum c (map (λ d. d.1) committed))
    where
      acked : World c g
      acked = record w {
        node = record w.node { acks = push_ack c sender_id (sender_id, true) w.node.acks };
      }

  -- A valid acknowledgement that brings the count to the threshold, at a node that holds the shares
  -- and commitments of honest dealers: its key share is the sum of the dealers' polynomials at its
  -- index, and the public key is the generator times the sum of their secrets.
  pub handle_message_completes :
      (w : World c g) (sender_id : String) (dealers : List (Dealer c))
      → w.node.shares ≡ dealt_shares c w.node.idx dealers
      → w.node.commitments ≡ dealt_commitments c dealers
      → w.node.t ≤ count_valid c w.node.acks + 1
      → handle_message c g json (share_ack sender_id w.node.id true) w ≡ (
        ok tt,
        record w {
          node = record w.node {
            acks = push_ack c sender_id (sender_id, true) w.node.acks;
            secret_key_share =
                some (sum c (map (λ d. evaluate_polynomial c (coeffs c d) w.node.idx) dealers));
            public_key = some (generator ⊙ sum c (map (λ d. d.1) dealers));
          };
        },
      )
  handle_message_completes w sender_id dealers = handle_message_counts w sender_id dealers dealers
