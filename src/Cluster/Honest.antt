-- ===== src/Cluster/Honest.antt =====
-- What an honest node of src/adkg_layer.bkp.rs among honest nodes holds and publishes, and that its
-- methods keep it so.
use mathlib.Core.Path.{subst}
use mathlib.Core.Option.{some-injective}
use mpc_node.Common.{
  ℕ, ◌-◌, ◌≡◌, inl, inr, sym, ap, ap₂, ◌∙◌, String, true, some, List, map, range_from, get_elem?,
  length, arith, ok, All, All-map, refl, eq_iff,
}
use mpc_node.Common.HashMap.{HashMap, insert, lookup-insert, All-insert, IsUnique, insert-IsUnique}
use mpc_node.Crypto.{Curve}
use mpc_node.Wire.{Json, Gossip}
use mpc_node.Adkg.{
  AdkgNode, AdkgMessage, World, share_proposal, share_ack, evaluate_polynomial,
  generate_commitments, verify_commitments, handle_message, start_adkg,
}
use mpc_node.Adkg.Backed.{verify_commitments-true}
use mpc_node.Adkg.Completion.{stored}
use mpc_node.Adkg.Keeps.{handle_message-Keeps, start_adkg-Keeps, SendKept}
use mpc_node.Adkg.Protocol.{coeffs, proposal_of, own_share, dealt_length}
use mpc_node.Adkg.Start.{own_dealer}
use mpc_node.Cluster.{Recorded, Setup}
use mpc_node.Cluster.Sent.{IsSent, IsWritten, insert-IsWritten}
use mpc_node.Cluster.Dealt.{dealer, IsShare, IsCommitted}

module _ (c : Curve) (g : Gossip) (json : Json (AdkgMessage c)) (rec : Recorded g)
    (setup : Setup c) where
  -- What a node holds.
  pub record Holds (i : ℕ) (shares : HashMap c.Scalar) (commitments : HashMap (List c.G1Affine))
      : Type 0 where
    pub all_shares : All (IsShare c setup i) shares
    pub all_commitments : All (IsCommitted c setup) commitments
    pub unique_shares : IsUnique shares
    pub unique_commitments : IsUnique commitments

  -- A node that has its own settings, holds of others only
  pub record IsHonest (i : ℕ) (w : World c g) : Type 0 where
    pub named : w.node.id ≡ setup.name i
    pub indexed : w.node.idx ≡ setup.idx i
    pub sized : w.node.n ≡ setup.n
    pub bounded : w.node.t ≡ setup.t
    pub held : Holds i w.node.shares w.node.commitments
    pub published : All (IsWritten c g json setup i w.node.shares) (rec.published w.swarm)

  send_kept :
      (i : ℕ) (w : World c g) (msg : AdkgMessage c)
      → (IsHonest i w → IsSent c g json setup i w.node.shares msg)
      → SendKept c g json (IsHonest i) w msg
  send_kept i w msg sent bytes swarm e p h = record {
    named = h.named;
    indexed = h.indexed;
    sized = h.sized;
    bounded = h.bounded;
    held = h.held;
    published =
        subst (All (IsWritten c g json setup i w.node.shares))
          (sym (rec.published-publish w.swarm swarm "/adkg/1.0.0" bytes p))
          ((msg, sent h, e), h.published);
  }

  -- The entry of a proposal's list at a node's index is the value of the polynomial there.
  own_value :
      (p : ℕ) (node : AdkgNode c) (sender_id : String) (shares : List c.Scalar)
      (commitments : List c.G1Affine) (share : c.Scalar)
      → shares ≡ map (evaluate_polynomial c (coeffs c (dealer c setup p))) (range_from 1 setup.n)
      → get_elem? shares (node.idx - 1) ≡ some share
      → verify_commitments c node sender_id shares commitments ≡ ok true
      → share ≡ evaluate_polynomial c (coeffs c (dealer c setup p)) node.idx
  own_value p node sender_id shares commitments share e at v =
      let (found, lo, hi, found_at, fits) =
        verify_commitments-true c node sender_id shares commitments v in
      some-injective share (evaluate_polynomial c (coeffs c (dealer c setup p)) node.idx) (
        sym at
        ∙ ap (λ l. get_elem? l (node.idx - 1)) e
        ∙ own_share c g json setup.n node.idx (dealer c setup p) lo (
            omega (
              arith,
              hi,
              ap (λ (l : List c.Scalar). length l) e,
              dealt_length c g json setup.n (dealer c setup p),
            )))

  -- An accepted proposal of node `p` gives node `i` its point of the polynomial.
  store_kept :
      (i p : ℕ) (msg : AdkgMessage c) (w : World c g) (sender_id : String) (shares : List c.Scalar)
      (commitments : List c.G1Affine) (share : c.Scalar) (others : HashMap c.Scalar)
      → IsSent c g json setup p others msg
      → msg ≡ share_proposal sender_id shares commitments
      → get_elem? shares (w.node.idx - 1) ≡ some share
      → verify_commitments c w.node sender_id shares commitments ≡ ok true
      → IsHonest i w
      → IsHonest i (record w { node = stored c g json w.node sender_id share commitments })
  store_kept i p msg w sender_id shares commitments share others (inr (receiver, a, has)) e at v h =
      cc
  store_kept i p msg w sender_id shares commitments share others (inl d) e at v h = record {
    named = h.named;
    indexed = h.indexed;
    sized = h.sized;
    bounded = h.bounded;
    held = record {
      all_shares =
          All-insert (IsShare c setup i) sender_id share w.node.shares
            (
              p,
              cc,
              own_value p w.node sender_id shares commitments share (cc) at v
                  ∙ ap (evaluate_polynomial c (coeffs c (dealer c setup p))) h.indexed,
            )
            h.held.all_shares;
      all_commitments =
          All-insert (IsCommitted c setup) sender_id commitments w.node.commitments (p, cc, cc)
            h.held.all_commitments;
      unique_shares = insert-IsUnique sender_id share w.node.shares h.held.unique_shares;
      unique_commitments =
          insert-IsUnique sender_id commitments w.node.commitments h.held.unique_commitments;
    };
    published =
        All-map (IsWritten c g json setup i w.node.shares)
          (IsWritten c g json setup i (insert sender_id share w.node.shares))
          (rec.published w.swarm) (insert-IsWritten c g json setup i sender_id share w.node.shares)
          h.published;
  }

  -- Whatever a node is sent by one of the nodes, it stays honest.
  pub handle_message-IsHonest :
      (i p : ℕ) (msg : AdkgMessage c) (w : World c g) (others : HashMap c.Scalar)
      → IsSent c g json setup p others msg
      → IsHonest i w
      → IsHonest i (handle_message c g json msg w).1
  handle_message-IsHonest i p msg w others sent =
      handle_message-Keeps c g json (IsHonest i) msg
        (λ w h. record {
          named = h.named;
          indexed = h.indexed;
          sized = h.sized;
          bounded = h.bounded;
          held = h.held;
          published = h.published;
        })
        (λ w key e h. record {
          named = h.named;
          indexed = h.indexed;
          sized = h.sized;
          bounded = h.bounded;
          held = h.held;
          published = h.published;
        })
        (λ w sender_id valid e h. record {
          named = h.named;
          indexed = h.indexed;
          sized = h.sized;
          bounded = h.bounded;
          held = h.held;
          published = h.published;
        })
        (λ w sender_id share commitments.
          send_kept i (record w { node = stored c g json w.node sender_id share commitments })
            (share_ack w.node.id sender_id true)
            (λ h. inr (
              sender_id,
              ap (λ id. share_ack id sender_id true) h.named,
              (
                share,
                lookup-insert sender_id sender_id share w.node.shares
                    ∙ (rw ((eq_iff sender_id sender_id).1 refl) refl),
              ),
            )))
        (λ w sender_id shares commitments share e at v.
          store_kept i p msg w sender_id shares commitments share others sent e at v)
        w

  own_dealer_is :
      (i : ℕ) (w : World c g)
      → IsHonest i w
      → own_dealer c g json w (setup.rng i) ≡ dealer c setup i
  own_dealer_is i w h =
      ap₂ (λ name t. (name, setup.rng i 0, map (setup.rng i) (range_from 1 t))) h.named h.bounded

  -- Dealing keeps a node honest.
  pub start_adkg-IsHonest :
      (i : ℕ) (w : World c g) → IsHonest i w → IsHonest i (start_adkg c g json (setup.rng i) w).1
  start_adkg-IsHonest i w h =
      let own = own_dealer_is i w h in
      start_adkg-Keeps c g json (IsHonest i) (setup.rng i) w
        (send_kept i w _ (λ h'. inl (ap₂ (λ n d. proposal_of c g json n d) h.sized own)))
        (λ w' h'. record {
          named = h'.named;
          indexed = h'.indexed;
          sized = h'.sized;
          bounded = h'.bounded;
          held = record {
            all_shares = h'.held.all_shares;
            all_commitments =
                All-insert (IsCommitted c setup) w'.node.id _ w'.node.commitments
                  (i, h'.named, ap (λ d. generate_commitments c (coeffs c d)) own)
                  h'.held.all_commitments;
            unique_shares = h'.held.unique_shares;
            unique_commitments =
                insert-IsUnique w'.node.id _ w'.node.commitments h'.held.unique_commitments;
          };
          published = h'.published;
        })
        h
