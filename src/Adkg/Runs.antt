-- ===== src/Adkg/Runs.antt =====
-- When the methods of src/adkg_layer.bkp.rs return, with a value or with an error.
use mathlib.Core.Path.{subst}
use mpc_node.Common.{
  ℕ, ◌≡◌, ◌≢◌, refl, sym, ap, ◌∙◌, String, Bool, true, Bool-cases, get_elem?_lt, ◌==◌, ◌||◌, inl,
  inr, List, [], ◌∷◌, ◌-◌, some, ok, arith, length, All, Io, when, modify, ◌>>=◌, ◌>>◌, str_eq, leb,
  ltb,
}
use mpc_node.Common.Runs.{Runs, Runs-and_then, Runs-or_fail, Runs-when}
use mpc_node.Common.HashMap.{values}
use mpc_node.Crypto.{Curve}
use mpc_node.Crypto.Points.{accumulate}
use mpc_node.Wire.{Json, Gossip}
use mpc_node.Adkg.{
  AdkgMessage, AdkgNode, World, share_proposal, share_ack, publish, store_share, check_completion,
  verify_commitments, handle_message, start_adkg, add_first_commitments, generate_polynomial,
  push_ack, count_valid,
}
use mpc_node.Adkg.Backed.{verify_commitments-true}
use mpc_node.Adkg.Protocol.{proposal_of}
use mpc_node.Adkg.Start.{own_dealer}

module _ (c : Curve) where
  verify_commitments-Runs :
      (node : AdkgNode c) (sender_id : String) (shares : List c.Scalar)
      (commitments : List c.G1Affine)
      → Runs (verify_commitments c node sender_id shares commitments)
  unfolding verify_commitments
  verify_commitments-Runs node sender_id shares commitments =
      elim (Bool-cases (node.idx == 0 || ltb (length shares) node.idx)) [
        | inl out ↦ rw out tt
        | inr within ↦
            let (share, e) = get_elem?_lt shares (node.idx - 1) (ground (arith, within)) in
            rw (within, e) tt
      ]

  add_first_commitments-Runs :
      {S : Type 0} (start : c.G1Projective) (lists : List (List c.G1Affine)) (s : S)
      → All (λ l. l ≢ []) lists
      → Runs (add_first_commitments c start lists s).0
  unfolding add_first_commitments
  add_first_commitments-Runs start [] s h = tt
  add_first_commitments-Runs start ([] ∷ lists) s h = absurd (h.0 refl)
  add_first_commitments-Runs start ((p ∷ ps) ∷ lists) s h =
      add_first_commitments-Runs (c.◌⊞◌ start (c.to_projective p)) lists s h.1

module _ (c : Curve) (g : Gossip) (json : Json (AdkgMessage c)) where
  publish-Runs :
      (msg : AdkgMessage c) (error : String) (w : World c g) → Runs (publish c g json msg error w).0
  unfolding publish
  publish-Runs msg error w =
      Runs-or_fail (json.to_vec msg) "serde_json" _ w
        (λ bytes e. Runs-or_fail (g.publish w.swarm "/adkg/1.0.0" bytes) error _ w (λ swarm p. tt))

  pub start_adkg-Runs : (rng : ℕ → c.Scalar) (w : World c g) → Runs (start_adkg c g json rng w).0
  unfolding start_adkg generate_polynomial
  start_adkg-Runs rng w =
      Runs-and_then
        (publish c g json (proposal_of c g json w.node.n (own_dealer c g json w rng))
          "Failed to publish message" w)
        _ (publish-Runs _ _ w) (λ u e. tt)

  store_share-done :
      (w : World c g) (sender_id : String) (shares : List c.Scalar) (commitments : List c.G1Affine)
      → verify_commitments c w.node sender_id shares commitments ≡ ok true
      → (store_share c g json sender_id shares commitments w).0 ≡ ok tt
  unfolding store_share
  store_share-done w sender_id shares commitments v =
      let (share, lo, hi, at, fits) =
        verify_commitments-true c w.node sender_id shares commitments v in
      ground (arith, lo, hi, at)

  check_completion-Runs :
      (w : World c g)
      → All (λ l. l ≢ []) (values w.node.commitments)
      → Runs (check_completion c g json w).0
  unfolding check_completion
  check_completion-Runs w full =
      Runs-when (leb w.node.t (count_valid c w.node.acks)) complete w (λ reached.
        Runs-and_then (add_first_commitments c c.identity (values w.node.commitments) (keyed w))
          keep_key
          (add_first_commitments-Runs c c.identity (values w.node.commitments) (keyed w) full)
          (λ key e. tt))
    where
      keyed : World c g → World c g
      keyed w = record w {
        node = record w.node {
          secret_key_share = some (accumulate c c.zero_scalar (values w.node.shares));
        };
      }

      keep_key : c.G1Projective → Io (World c g) (Unit {0})
      keep_key key = modify (λ w. record w { node = record w.node { public_key = some key } })

      complete : Io (World c g) (Unit {0})
      complete =
          modify keyed
          >> (add_first_commitments c c.identity (values w.node.commitments) >>= keep_key)

  -- A node whose lists of commitments all have a first entry handles every message.
  pub handle_message-Runs :
      (msg : AdkgMessage c) (w : World c g)
      → All (λ l. l ≢ []) (values w.node.commitments)
      → Runs (handle_message c g json msg w).0
  unfolding handle_message
  handle_message-Runs (share_proposal sender_id shares commitments) w full =
      Runs-and_then (verify_commitments c w.node sender_id shares commitments, w) accept
        (verify_commitments-Runs c w.node sender_id shares commitments)
        (λ verified v. Runs-when verified store_and_publish w (λ t.
          Runs-and_then (store_share c g json sender_id shares commitments w)
            (λ _. publish c g json ack "Failed to publish ACK")
            (subst Runs (sym (store_share-done w sender_id shares commitments (v ∙ ap ok t))) tt)
            (λ _ e. publish-Runs ack "Failed to publish ACK" _)))
    where
      ack : AdkgMessage c
      ack = share_ack w.node.id sender_id true

      store_and_publish : Io (World c g) (Unit {0})
      store_and_publish =
          store_share c g json sender_id shares commitments
          >> publish c g json ack "Failed to publish ACK"

      accept : Bool → Io (World c g) (Unit {0})
      accept verified = when verified store_and_publish
  handle_message-Runs (share_ack sender_id receiver_id valid) w full =
      Runs-when (str_eq receiver_id w.node.id) recorded w (λ own. check_completion-Runs _ full)
    where
      recorded : Io (World c g) (Unit {0})
      recorded =
          modify (λ w. record w {
            node = record w.node { acks = push_ack c sender_id (sender_id, valid) w.node.acks };
          })
          >> check_completion c g json
