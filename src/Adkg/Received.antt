-- ===== src/Adkg/Received.antt =====
-- A node of src/adkg_layer.bkp.rs among others that need not be honest: any messages come in, in any
-- order, and the node goes on after an `Err`. A panic ends it.
use mathlib.Core.Path.{subst}
use mpc_node.Common.{
  sym, Io, and_then, leb→le, ℕ, ◌≤◌, ◌≡◌, ◌≢◌, refl, ap, ◌∙◌, String, Bool, true, false, List, some,
  arith, ok, Outcome, panicked, err, blocked, length, get_elem?, ◌-◌, leb, str_eq, eq_iff,
  Bool-cases, inl, inr,
}
use mpc_node.Common.HashMap.{values}
use mpc_node.Crypto.{Curve}
use mpc_node.Wire.{Json, Gossip}
use mpc_node.Adkg.{
  AdkgNode, AdkgMessage, World, share_proposal, share_ack, verify_commitments, handle_message,
  check_completion, count_valid, push_ack, new, add_first_commitments,
}
use mpc_node.Adkg.Completion.{
  stored, handle_message_own_ack, handle_message_other_ack, check_completion_below,
  check_completion_done,
}
use mpc_node.Crypto.Points.{accumulate}
use mpc_node.Adkg.Backed.{Backed, insert-Backed, verify_commitments-true, first_of_each}

module _ (c : Curve) (g : Gossip) (json : Json (AdkgMessage c)) where
  open c use {Scalar, G1Affine, identity}

  -- An accepted proposal, whether its acknowledgement can be written and published or not.
  pub accepted_node :
      (w : World c g) (sender_id : String) (shares : List Scalar) (commitments : List G1Affine)
      (share : Scalar)
      → 1 ≤ w.node.idx
      → w.node.idx ≤ length shares
      → get_elem? shares (w.node.idx - 1) ≡ some share
      → verify_commitments c w.node sender_id shares commitments ≡ ok true
      → (handle_message c g json (share_proposal sender_id shares commitments) w).1.node
        ≡ stored c g json w.node sender_id share commitments
  unfolding handle_message
  accepted_node w sender_id shares commitments share lo hi at v = ground (arith, v, at)

  panicked_through :
      {S A B : Type 0} (r : Outcome A × S) (f : A → Io S B)
      → r.0 ≡ panicked
      → (and_then r f).0 ≡ panicked
  panicked_through (ok a, s) f e = cc
  panicked_through (err m, s) f e = cc
  panicked_through (panicked, s) f e = refl
  panicked_through (blocked, s) f e = cc

  -- The world in which the first commitments are added up.
  abbrev keyed : World c g → World c g
  keyed w = record w {
    node = record w.node {
      secret_key_share = some (accumulate c c.zero_scalar (values w.node.shares));
    };
  }

  completion_panics :
      (w : World c g)
      → leb w.node.t (count_valid c w.node.acks) ≡ true
      → (add_first_commitments c identity (values w.node.commitments) (keyed w)).0 ≡ panicked
      → (check_completion c g json w).0 ≡ panicked
  unfolding check_completion
  completion_panics w reached e = rw reached (
      panicked_through (add_first_commitments c identity (values w.node.commitments) (keyed w)) _ e)

  -- What a node holds: the same names in both stores, and each share fits its commitments.
  abbrev pub IsSound : AdkgNode c → Type 0
  IsSound node = Backed c node.idx node.shares node.commitments

  check_completion-IsSound :
      (w : World c g)
      → (check_completion c g json w).0 ≢ panicked
      → IsSound w.node
      → IsSound (check_completion c g json w).1.node
  check_completion-IsSound w alive sound =
      elim (Bool-cases (leb w.node.t (count_valid c w.node.acks))) [
        | inl reached ↦
            let (kept, e) =
              first_of_each c identity (values w.node.commitments) (keyed w)
                (λ p. alive (completion_panics w reached p)) in
            subst IsSound
              (sym
                (ap (λ r. r.1.node) (check_completion_done c g json w kept (leb→le _ _ reached) e)))
              sound
        | inr below ↦
            subst IsSound
              (sym (ap (λ r. r.1.node) (check_completion_below c g json w (ground (arith, below)))))
              sound
      ]

  proposal-IsSound :
      (w : World c g) (sender_id : String) (shares : List Scalar) (commitments : List G1Affine)
      (verified : Outcome Bool)
      → verify_commitments c w.node sender_id shares commitments ≡ verified
      → IsSound w.node
      → IsSound (handle_message c g json (share_proposal sender_id shares commitments) w).1.node
  unfolding handle_message
  proposal-IsSound w sender_id shares commitments (ok true) v sound =
      let (share, lo, hi, at, fits) =
        verify_commitments-true c w.node sender_id shares commitments v in
      subst IsSound (sym (accepted_node w sender_id shares commitments share lo hi at v)) (
        insert-Backed c w.node.idx sender_id share commitments w.node.shares w.node.commitments fits
          sound)
  proposal-IsSound w sender_id shares commitments (ok false) v sound = rw v sound
  proposal-IsSound w sender_id shares commitments (err e) v sound = rw v sound
  proposal-IsSound w sender_id shares commitments panicked v sound = rw v sound
  proposal-IsSound w sender_id shares commitments blocked v sound = rw v sound

  acked : World c g → String → Bool → World c g
  acked w sender_id valid = record w {
    node = record w.node { acks = push_ack c sender_id (sender_id, valid) w.node.acks };
  }

  ack_for :
      (w : World c g) (sender_id receiver_id : String) (valid : Bool)
      → receiver_id ≡ w.node.id
      → handle_message c g json (share_ack sender_id receiver_id valid) w
        ≡ check_completion c g json (acked w sender_id valid)
  unfolding acked
  ack_for w sender_id receiver_id valid same =
      ap (λ r. handle_message c g json (share_ack sender_id r valid) w) same
      ∙ handle_message_own_ack c g json w sender_id valid

  pub handle_message-IsSound :
      (w : World c g) (msg : AdkgMessage c)
      → (handle_message c g json msg w).0 ≢ panicked
      → IsSound w.node
      → IsSound (handle_message c g json msg w).1.node
  unfolding acked
  handle_message-IsSound w (share_proposal sender_id shares commitments) alive sound =
      proposal-IsSound w sender_id shares commitments _ refl sound
  handle_message-IsSound w (share_ack sender_id receiver_id valid) alive sound =
      elim (Bool-cases (str_eq receiver_id w.node.id)) [
        | inl same ↦
            let e = ack_for w sender_id receiver_id valid ((eq_iff receiver_id w.node.id).0 same) in
            subst IsSound (sym (ap (λ r. r.1.node) e)) (
              check_completion-IsSound (acked w sender_id valid) (λ p. alive (ap (λ r. r.0) e ∙ p))
                sound)
        | inr other ↦
            subst IsSound
              (sym (
                ap (λ r. r.1.node)
                  (handle_message_other_ack c g json w sender_id receiver_id valid
                    (λ p. cc ((eq_iff receiver_id w.node.id).1 p, other)))))
              sound
      ]

  -- One message, from whomever, that does not end the node by a panic.
  pub data Received (w w' : World c g) : Type 0 where
    received :
        (msg : AdkgMessage c) (r : Outcome (Unit {0}))
        → handle_message c g json msg w ≡ (r, w')
        → r ≢ panicked
        → Received w w'

  -- A node that has not dealt, after any number of messages.
  pub data Reach (id : String) (n t idx : ℕ) : World c g → Type 0 where
    start : (swarm : g.Swarm) → Reach id n t idx (record { node = new c id n t idx; swarm = swarm })
    next : {w w' : World c g} → Reach id n t idx w → Received w w' → Reach id n t idx w'
