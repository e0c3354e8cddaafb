-- ===== src/Adkg/Keeps.antt =====
-- A property of the node and the swarm that the methods of src/adkg_layer.bkp.rs keep, on every branch
-- and whatever their outcome is, once the few things that they change are known to keep it.
use mathlib.Core.Path.{subst}
use mpc_node.Common.{
  sym, ℕ, ◌≡◌, ◌≤◌, arith, Outcome, and_then, refl, ap, ◌∙◌, leb, length, ◌>>=◌, str_eq, eq_iff,
  String, Bool, true, Io, when, ◌>>◌, List, [], ◌∷◌, ◌-◌, some, ok, modify, get_elem?,
}
use mpc_node.Common.Keeps.{Keeps, Keeps-and_then, Keeps-lift, Keeps-or_fail, Keeps-when, Keeps-step}
use mpc_node.Common.HashMap.{values, insert}
use mpc_node.Crypto.{Curve}
use mpc_node.Crypto.Points.{accumulate}
use mpc_node.Wire.{Json, Gossip, Bytes}
use mpc_node.Adkg.{
  AdkgMessage, World, share_proposal, share_ack, publish, store_share, check_completion,
  verify_commitments, handle_message, start_adkg, add_first_commitments, generate_polynomial,
  generate_commitments, push_ack, count_valid,
}
use mpc_node.Adkg.Backed.{verify_commitments-true}
use mpc_node.Adkg.Completion.{stored}
use mpc_node.Adkg.Protocol.{coeffs, proposal_of}
use mpc_node.Adkg.Start.{own_dealer}

module _ (c : Curve) (g : Gossip) (json : Json (AdkgMessage c)) (Inv : World c g → Type 0) where
  -- Inv stays true when the shares are added up, when the first commitments are added up, and when
  -- an acknowledgement is recorded.
  abbrev pub ShareKept : Type 0
  ShareKept =
      (w : World c g)
      → Inv w
      → Inv (record w {
        node = record w.node {
          secret_key_share = some (accumulate c c.zero_scalar (values w.node.shares));
        };
      })

  abbrev pub KeyKept : Type 0
  KeyKept =
      (w : World c g) (key : c.G1Projective)
      → (add_first_commitments c c.identity (values w.node.commitments) w).0 ≡ ok key
      → Inv w
      → Inv (record w { node = record w.node { public_key = some key } })

  abbrev pub AcksKept : AdkgMessage c → Type 0
  AcksKept msg =
      (w : World c g) (sender_id : String) (valid : Bool)
      → msg ≡ share_ack sender_id w.node.id valid
      → Inv w
      → Inv (record w {
        node = record w.node { acks = push_ack c sender_id (sender_id, valid) w.node.acks };
      })

  -- Publishing a message in a world keeps Inv.
  abbrev pub SendKept : World c g → AdkgMessage c → Type 0
  SendKept w msg =
      (bytes : Bytes) (swarm : g.Swarm)
      → json.to_vec msg ≡ some bytes
      → g.publish w.swarm "/adkg/1.0.0" bytes ≡ some swarm
      → Inv w
      → Inv (record w { swarm = swarm })

  -- So does publishing the acknowledgement once a share has been stored.
  abbrev pub AckKept : Type 0
  AckKept =
      (w : World c g) (sender_id : String) (share : c.Scalar) (commitments : List c.G1Affine)
      → SendKept (record w { node = stored c g json w.node sender_id share commitments })
          (share_ack w.node.id sender_id true)

  -- Inv holds of what an accepted proposal leaves behind.
  abbrev pub StoreKept : AdkgMessage c → Type 0
  StoreKept msg =
      (w : World c g) (sender_id : String) (shares : List c.Scalar) (commitments : List c.G1Affine)
      (share : c.Scalar)
      → msg ≡ share_proposal sender_id shares commitments
      → get_elem? shares (w.node.idx - 1) ≡ some share
      → verify_commitments c w.node sender_id shares commitments ≡ ok true
      → Inv w
      → Inv (record w { node = stored c g json w.node sender_id share commitments })

  publish-Keeps :
      (msg : AdkgMessage c) (error : String) (w : World c g)
      → SendKept w msg
      → Inv w
      → Inv (publish c g json msg error w).1
  unfolding publish
  publish-Keeps msg error w send h =
      Keeps-or_fail Inv (json.to_vec msg) "serde_json" _ w h (λ bytes e.
        Keeps-or_fail Inv (g.publish w.swarm "/adkg/1.0.0" bytes) error _ w h
          (λ swarm p. send bytes swarm e p h))

  pub store_share-stored :
      (w : World c g) (sender_id : String) (shares : List c.Scalar) (commitments : List c.G1Affine)
      (share : c.Scalar)
      → 1 ≤ w.node.idx
      → w.node.idx ≤ length shares
      → get_elem? shares (w.node.idx - 1) ≡ some share
      → store_share c g json sender_id shares commitments w
        ≡ (ok tt, record w { node = stored c g json w.node sender_id share commitments })
  unfolding store_share
  store_share-stored w sender_id shares commitments share lo hi at = ground (arith, lo, hi, at)

  accepted-Keeps :
      (w : World c g) (sender_id : String) (shares : List c.Scalar) (commitments : List c.G1Affine)
      → AckKept
      → StoreKept (share_proposal sender_id shares commitments)
      → verify_commitments c w.node sender_id shares commitments ≡ ok true
      → Inv w
      → Inv
          (and_then
            (store_share c g json sender_id shares commitments w)
            (λ _. publish c g json (share_ack w.node.id sender_id true) "Failed to publish ACK")).1
  accepted-Keeps w sender_id shares commitments send store v h =
      let (share, lo, hi, at, fits) =
        verify_commitments-true c w.node sender_id shares commitments v in
      subst
        (λ (r : Outcome (Unit {0}) × World c g).
          Inv
            (and_then r (λ _.
              publish c g json (share_ack w.node.id sender_id true) "Failed to publish ACK")).1)
        (sym (store_share-stored w sender_id shares commitments share lo hi at))
        (publish-Keeps (share_ack w.node.id sender_id true) "Failed to publish ACK"
          (record w { node = stored c g json w.node sender_id share commitments })
          (send w sender_id share commitments)
          (store w sender_id shares commitments share refl at v h))

  add_first_commitments-state :
      (start : c.G1Projective) (lists : List (List c.G1Affine)) (w : World c g)
      → (add_first_commitments c start lists w).1 ≡ w
  unfolding add_first_commitments
  add_first_commitments-state start [] w = refl
  add_first_commitments-state start ([] ∷ lists) w = refl
  add_first_commitments-state start ((p ∷ ps) ∷ lists) w =
      add_first_commitments-state (c.◌⊞◌ start (c.to_projective p)) lists w

  check_completion-Keeps : ShareKept → KeyKept → Keeps Inv (check_completion c g json)
  unfolding check_completion
  check_completion-Keeps share_kept key_kept w h =
      let summed = add_first_commitments c c.identity (values w.node.commitments) (keyed w) in
      let same = add_first_commitments-state c.identity (values w.node.commitments) (keyed w) in
      Keeps-when Inv (leb w.node.t (count_valid c w.node.acks)) complete w h (λ reached.
        Keeps-step Inv summed keep_key (subst Inv (sym same) (share_kept w h)) (λ key e.
          subst (λ s. Inv (keep_key key s).1) (sym same)
            (key_kept (keyed w) key e (share_kept w h))))
    where
      keyed : World c g → World c g
      keyed w = record w {
        node = record w.node {
          secret_key_share = some (accumulate c c.zero_scalar (values w.node.shares));
        };
      }

      keep_key : c.G1Projective → Io (World c g) (Unit {0})
      keep_key key = modify (λ w. record w { node = record w.node { public_key = some key } })

      complete : Io (World c g) (Unit {0})
      complete =
          modify keyed
          >> (add_first_commitments c c.identity (values w.node.commitments) >>= keep_key)

  pub handle_message-Keeps :
      (msg : AdkgMessage c)
      → ShareKept
      → KeyKept
      → AcksKept msg
      → AckKept
      → StoreKept msg
      → Keeps Inv (handle_message c g json msg)
  unfolding handle_message
  handle_message-Keeps (share_proposal sender_id shares commitments) share_kept key_kept acks send
        store w h =
      Keeps-lift Inv (verify_commitments c w.node sender_id shares commitments) accept w h
        (λ verified v.
          Keeps-when Inv verified store_and_publish w h
            (λ t. accepted-Keeps w sender_id shares commitments send store (v ∙ ap ok t) h))
    where
      ack : AdkgMessage c
      ack = share_ack w.node.id sender_id true

      store_and_publish : Io (World c g) (Unit {0})
      store_and_publish =
          store_share c g json sender_id shares commitments
          >> publish c g json ack "Failed to publish ACK"

      accept : Bool → Io (World c g) (Unit {0})
      accept verified = when verified store_and_publish
  handle_message-Keeps (share_ack sender_id receiver_id valid) share_kept key_kept acks send store w
        h =
      Keeps-when Inv (str_eq receiver_id w.node.id) recorded w h (λ own.
        check_completion-Keeps share_kept key_kept _ (
          acks w sender_id valid
            (ap (λ r. share_ack sender_id r valid) ((eq_iff receiver_id w.node.id).0 own)) h))
    where
      recorded : Io (World c g) (Unit {0})
      recorded =
          modify (λ w. record w {
            node = record w.node { acks = push_ack c sender_id (sender_id, valid) w.node.acks };
          })
          >> check_completion c g json

  pub start_adkg-Keeps :
      (rng : ℕ → c.Scalar) (w : World c g)
      → SendKept w (proposal_of c g json w.node.n (own_dealer c g json w rng))
      → ((w' : World c g)
          → Inv w'
          → Inv (record w' {
            node = record w'.node {
              commitments =
                  insert w'.node.id
                    (generate_commitments c (coeffs c (own_dealer c g json w rng)))
                    w'.node.commitments;
            };
          }))
      → Inv w
      → Inv (start_adkg c g json rng w).1
  unfolding start_adkg generate_polynomial
  start_adkg-Keeps rng w send own h =
      Keeps-and_then Inv
        (publish c g json (proposal_of c g json w.node.n (own_dealer c g json w rng))
          "Failed to publish message" w)
        _ (publish-Keeps _ "Failed to publish message" w send h) (λ _ e. own)
