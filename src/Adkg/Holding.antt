-- ===== src/Adkg/Holding.antt =====
-- A node of src/adkg_layer.bkp.rs that has heard the other dealers and takes acknowledgements.
use native.Mathlib.Decide.{dec_lt}
use mpc_node.Common.{
  ℕ, ◌+◌, ◌≤◌, ◌≡◌, ◌≢◌, refl, sym, ap, ◌∙◌, String, true, List, [], ◌∷◌, map, some, ok, arith, All,
  eq_iff,
}
use mpc_node.Common.HashMap.{lookup}
use mpc_node.Crypto.{Curve}
use mpc_node.Crypto.Field.{sum}
use mpc_node.Wire.{Json, Gossip}
use mpc_node.Adkg.{
  AdkgNode, AdkgMessage, World, share_ack, evaluate_polynomial, count_valid, push_ack,
  handle_message,
}
use mpc_node.Adkg.Acks.{count_valid-push_ack}
use mpc_node.Adkg.Completion.{handle_message_own_ack, check_completion_below}
use mpc_node.Adkg.Delivery.{IsFresh}
use mpc_node.Adkg.Protocol.{Dealer, coeffs, dealt_shares, dealt_commitments, handle_message_counts}

module _ (c : Curve) (g : Gossip) (json : Json (AdkgMessage c)) where
  infixl 75 ◌⊙◌
  open c use {Scalar, generator, ◌⊙◌}

  module _ (me : String) (idx t : ℕ) (heard committed : List (Dealer c)) where
    -- The node holds what it has heard.
    pub record IsHolding (node : AdkgNode c) : Type 0 where
      pub named : node.id ≡ me
      pub indexed : node.idx ≡ idx
      pub bounded : node.t ≡ t
      pub has_shares : node.shares ≡ dealt_shares c idx heard
      pub has_commitments : node.commitments ≡ dealt_commitments c committed

    -- It has its key share and the public key.
    abbrev pub IsDone : AdkgNode c → Type 0
    IsDone node =
        (node.secret_key_share
          ≡ some (sum c (map (λ d. evaluate_polynomial c (coeffs c d) idx) heard)))
        × (node.public_key ≡ some (generator ⊙ sum c (map (λ d. d.1) committed)))

    abbrev acked : String → World c g → World c g
    acked sender_id w = record w {
      node = record w.node { acks = push_ack c sender_id (sender_id, true) w.node.acks };
    }

    -- One acknowledgement: it is counted, and the threshold completes the node.
    pub handle_ack :
        (w : World c g) (sender_id : String)
        → IsHolding w.node
        → (w' : World c g) × (handle_message c g json (share_ack sender_id me true) w ≡ (ok tt, w'))
          × IsHolding w'.node
          × (count_valid c w'.node.acks ≡ count_valid c w.node.acks + 1)
          × (t ≤ count_valid c w'.node.acks → IsDone w'.node)
    handle_ack w sender_id h =
        let counted = count_valid-push_ack c sender_id true w.node.acks in
        let mine =
          ap (λ id. handle_message c g json (share_ack sender_id id true) w) (sym h.named) in
        let still : IsHolding (acked sender_id w).node = record {
          named = h.named;
          indexed = h.indexed;
          bounded = h.bounded;
          has_shares = h.has_shares;
          has_commitments = h.has_commitments;
        } in
        elim (dec_lt (count_valid c w.node.acks + 1) t) [
          | yes below ↦ (
            acked sender_id w,
            mine
                ∙ handle_message_own_ack c g json w sender_id true
                ∙ check_completion_below c g json (acked sender_id w)
                    (omega (arith, counted, h.bounded)),
            still,
            counted,
            λ enough. absurd (omega (arith, counted)),
          )
          | no reached ↦
              let done =
                handle_message_counts c g json w sender_id heard committed
                  (h.has_shares ∙ ap (λ i. dealt_shares c i heard) (sym h.indexed))
                  h.has_commitments (omega (arith, h.bounded)) in
              (
                record (acked sender_id w) {
                  node = record (acked sender_id w).node {
                    secret_key_share =
                        some
                          (sum c (map (λ d. evaluate_polynomial c (coeffs c d) w.node.idx) heard));
                    public_key = some (generator ⊙ sum c (map (λ d. d.1) committed));
                  };
                },
                mine ∙ done,
                record {
                  named = h.named;
                  indexed = h.indexed;
                  bounded = h.bounded;
                  has_shares = h.has_shares;
                  has_commitments = h.has_commitments;
                },
                counted,
                λ enough. (
                  ap (λ i. some (sum c (map (λ d. evaluate_polynomial c (coeffs c d) i) heard)))
                      h.indexed,
                  refl,
                ),
              )
        ]

  pub heard-IsFresh :
      (me : Dealer c) (node : AdkgNode c) (heard : List (Dealer c))
      → node.shares ≡ []
      → node.commitments ≡ dealt_commitments c (me ∷ [])
      → All (λ d. d.0 ≢ me.0) heard
      → All (IsFresh c node) heard
  unfolding lookup
  heard-IsFresh me node [] e e' h = tt
  heard-IsFresh me node (d ∷ heard) e e' h = (
    (ap (lookup d.0) e, ap (lookup d.0) e' ∙ (ground (arith, h.0, eq_iff me.0 d.0))),
    heard-IsFresh me node heard e e' h.1,
  )
