-- ===== src/Adkg/Completion.antt =====
-- `handle_message` and `check_completion` of src/adkg_layer.bkp.rs: what a proposal and an
-- acknowledgement change, on each branch.
use mpc_node.Common.{
  ◌-◌, ◌≤◌, ◌<◌, ◌≡◌, ◌≢◌, refl, String, Bool, true, false, List, [], ◌∷◌, ◌++◌, map, length,
  get_elem?, some, arith, ok, panicked, le→leb, eq_iff,
}
use mpc_node.Common.HashMap.{insert, values}
use mpc_node.Crypto.{Curve}
use mpc_node.Crypto.Points
use mpc_node.Crypto.Points.{accumulate}
use mpc_node.Wire.{Json, Gossip, Bytes}
use mpc_node.Adkg.{
  AdkgNode, AdkgMessage, World, share_proposal, share_ack, verify_commitments, count_valid,
  add_first_commitments, check_completion, handle_message, push_ack, publish,
}

module _ (c : Curve) (g : Gossip) (json : Json (AdkgMessage c)) where
  infixl 65 ◌⊞◌
  infixl 75 ◌⊙◌
  open c use {
    Scalar, G1Projective, G1Affine, identity, generator, ◌⊞◌, ◌⊙◌, to_projective, zero_scalar,
  }

  -- The node after it has stored a dealer's share and commitments.
  abbrev pub stored : AdkgNode c → String → Scalar → List G1Affine → AdkgNode c
  stored node sender_id share commitments = record node {
    commitments = insert sender_id commitments node.commitments;
    shares = insert sender_id share node.shares;
  }

  publish_ok :
      (w : World c g) (msg : AdkgMessage c) (error : String) (bytes : Bytes) (swarm : g.Swarm)
      → json.to_vec msg ≡ some bytes
      → g.publish w.swarm "/adkg/1.0.0" bytes ≡ some swarm
      → publish c g json msg error w ≡ (ok tt, record w { swarm = swarm })
  unfolding publish
  publish_ok w msg error bytes swarm e p = rw (e, p) refl

  -- A proposal that passes the verification: the share at the node's own index and the commitments
  -- are stored under the dealer's name, and the acknowledgement is published; nothing else changes.
  pub handle_message_accepted :
      (w : World c g) (sender_id : String) (shares : List Scalar) (commitments : List G1Affine)
      (share : Scalar) (bytes : Bytes) (swarm : g.Swarm)
      → 1 ≤ w.node.idx
      → w.node.idx ≤ length shares
      → get_elem? shares (w.node.idx - 1) ≡ some share
      → verify_commitments c w.node sender_id shares commitments ≡ ok true
      → json.to_vec (share_ack w.node.id sender_id true) ≡ some bytes
      → g.publish w.swarm "/adkg/1.0.0" bytes ≡ some swarm
      → handle_message c g json (share_proposal sender_id shares commitments) w
        ≡ (ok tt, record { node = stored w.node sender_id share commitments; swarm = swarm })
  unfolding handle_message
  handle_message_accepted w sender_id shares commitments share bytes swarm lo hi at v e p =
      ground (arith, lo, hi, at, v, e, p)

  -- A proposal that fails the verification leaves the node and the swarm as they were.
  pub handle_message_rejected :
      (w : World c g) (sender_id : String) (shares : List Scalar) (commitments : List G1Affine)
      → verify_commitments c w.node sender_id shares commitments ≡ ok false
      → handle_message c g json (share_proposal sender_id shares commitments) w ≡ (ok tt, w)
  unfolding handle_message
  handle_message_rejected w sender_id shares commitments v = rw v refl

  -- An acknowledgement for another node changes nothing.
  pub handle_message_other_ack :
      (w : World c g) (sender_id receiver_id : String) (valid : Bool)
      → receiver_id ≢ w.node.id
      → handle_message c g json (share_ack sender_id receiver_id valid) w ≡ (ok tt, w)
  unfolding handle_message
  handle_message_other_ack w sender_id receiver_id valid ne =
      ground (arith, eq_iff receiver_id w.node.id)

  -- An acknowledgement for this node is recorded, and the completion is checked.
  pub handle_message_own_ack :
      (w : World c g) (sender_id : String) (valid : Bool)
      → handle_message c g json (share_ack sender_id w.node.id valid) w
        ≡ check_completion c g json (record w {
          node = record w.node { acks = push_ack c sender_id (sender_id, valid) w.node.acks };
        })
  unfolding handle_message
  handle_message_own_ack w sender_id valid = rw ((eq_iff w.node.id w.node.id).1 refl) refl

  -- Below the threshold nothing happens.
  pub check_completion_below :
      (w : World c g)
      → count_valid c w.node.acks < w.node.t
      → check_completion c g json w ≡ (ok tt, w)
  unfolding check_completion
  check_completion_below w h = ground arith

  pub add_first_commitments-accumulate :
      (start : G1Projective) (lists : List (G1Affine × List G1Affine)) (w : World c g)
      → add_first_commitments c start (map (λ l. l.0 ∷ l.1) lists) w
        ≡ (ok (Points.accumulate_points c start (map (λ l. to_projective l.0) lists)), w)
  unfolding add_first_commitments Points.accumulate_points
  add_first_commitments-accumulate start [] w = refl
  add_first_commitments-accumulate start (l ∷ lists) w =
      add_first_commitments-accumulate (start ⊞ to_projective l.0) lists w

  -- At the threshold, with a first commitment from every dealer: the shares are added up to the
  -- secret key share, and the first commitments to the public key.
  pub check_completion_done :
      (w : World c g) (lists : List (G1Affine × List G1Affine))
      → w.node.t ≤ count_valid c w.node.acks
      → values w.node.commitments ≡ map (λ l. l.0 ∷ l.1) lists
      → check_completion c g json w ≡ (
        ok tt,
        record w {
          node = record w.node {
            secret_key_share = some (accumulate c zero_scalar (values w.node.shares));
            public_key =
                some (Points.accumulate_points c identity (map (λ l. to_projective l.0) lists));
          };
        },
      )
  unfolding check_completion
  check_completion_done w lists h e =
      rw (le→leb w.node.t (count_valid c w.node.acks) h, e, add_first_commitments-accumulate) refl

  add_first_commitments_panics :
      (start : G1Projective) (lists : List (G1Affine × List G1Affine)) (rest : List (List G1Affine))
      (w : World c g)
      → add_first_commitments c start (map (λ l. l.0 ∷ l.1) lists ++ [] ∷ rest) w ≡ (panicked, w)
  unfolding add_first_commitments
  add_first_commitments_panics start [] rest w = refl
  add_first_commitments_panics start (l ∷ lists) rest w =
      add_first_commitments_panics (start ⊞ to_projective l.0) lists rest w

  -- An empty list of commitments among the stored ones: at the threshold the node panics.
  pub check_completion_panics :
      (w : World c g) (lists : List (G1Affine × List G1Affine)) (rest : List (List G1Affine))
      → w.node.t ≤ count_valid c w.node.acks
      → values w.node.commitments ≡ map (λ l. l.0 ∷ l.1) lists ++ [] ∷ rest
      → (check_completion c g json w).0 ≡ panicked
  unfolding check_completion
  check_completion_panics w lists rest h e =
      rw (le→leb w.node.t (count_valid c w.node.acks) h, e, add_first_commitments_panics) refl
