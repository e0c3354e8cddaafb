-- ===== src/Cluster/Safety.antt =====
-- What every interleaving of honest nodes of src/adkg_layer.bkp.rs on one network keeps.
use mathlib.Core.Path.{subst}
use mpc_node.Common.{
  ℕ, ◌≡◌, ◌≢◌, sym, ap, ◌∙◌, String, Bool-cases, inl, inr, some, List, [], ◌∷◌, All, ◌==◌, Outcome,
  ok, err, panicked, blocked, get_elem?, Bool, true,
}
use mpc_node.Common.Runs.{Runs}
use mpc_node.Common.HashMap.{HashMap, lookup, values, All-lookup}
use mpc_node.Crypto.{Curve}
use mpc_node.Wire.{Json, Gossip}
use mpc_node.Adkg.{share_ack, AdkgMessage, World, evaluate_polynomial, generate_commitments}
use mpc_node.Adkg.Protocol.{coeffs}
use mpc_node.Adkg.Runs.{start_adkg-Runs, handle_message-Runs}
use mpc_node.Cluster.{
  Recorded, Setup, crashed, phase_after, Net, moved, start, receive, Reach, begin, step,
}
use mpc_node.Cluster.Dealt.{dealer, IsShare, IsCommitted}
use mpc_node.Cluster.Invariant.{Reach-IsHonest, published-IsSent}
use mpc_node.Cluster.Sent.{IsSent}

module _ (c : Curve) (g : Gossip) where
  phase_after-Runs : (r : Outcome (Unit {0})) → Runs r → phase_after r ≢ crashed
  unfolding phase_after
  phase_after-Runs (ok u) h e = cc
  phase_after-Runs (err m) h e = cc
  phase_after-Runs panicked h e = elim h [ ]
  phase_after-Runs blocked h e = elim h [ ]

  phase-moved :
      (net : Net c g) (i : ℕ) (r : Outcome (Unit {0})) (w : World c g)
      → ((j : ℕ) → net.phase j ≢ crashed)
      → Runs r
      → (j : ℕ) → (moved c g net i r w).phase j ≢ crashed
  unfolding moved
  phase-moved net i r w h runs j = elim (Bool-cases (i == j)) [
    | inl e ↦ rw e (phase_after-Runs r runs)
    | inr e ↦ rw e (h j)
  ]

module _ (c : Curve) (g : Gossip) (json : Json (AdkgMessage c)) (rec : Recorded g)
    (setup : Setup c) where
  committed_full :
      (m : HashMap (List c.G1Affine)) → All (IsCommitted c setup) m → All (λ l. l ≢ []) (values m)
  unfolding generate_commitments
  committed_full [] h = tt
  committed_full (entry ∷ m) ((p, name, e), rest) = ((λ empty. cc), committed_full m rest)

  -- Where every node of a network runs the code, none of them ever panics, in any interleaving of
  -- their dealing and of deliveries that come in any order, late, several times or never.
  pub phase-Reach : {net : Net c g} → Reach c g json rec setup net → (i : ℕ) → net.phase i ≢ crashed
  phase-Reach (begin {net} h) i = λ e. cc (h.is_waiting i, e)
  phase-Reach (step {net} {net'} reach (start k r w waits e moves)) i =
      subst (λ n. (j : ℕ) → n.phase j ≢ crashed) (sym moves)
        (phase-moved c g net k r w (phase-Reach reach)
          (subst Runs (ap (λ q. q.0) e) (start_adkg-Runs c g json (setup.rng k) (net.world k))))
        i
  phase-Reach
        (step {net} {net'} reach (receive k from at bytes msg r w loops apart found read e moves))
        i =
      subst (λ n. (j : ℕ) → n.phase j ≢ crashed) (sym moves)
        (phase-moved c g net k r w (phase-Reach reach) (
          subst Runs (ap (λ q. q.0) e) (
            handle_message-Runs c g json msg (net.world k) (
              committed_full (net.world k).node.commitments
                (Reach-IsHonest c g json rec setup reach k).held.all_commitments))))
        i

  -- Where every node of a network runs the code, in every interleaving: a share that one node holds and
  -- the commitments that the same node or another one holds under the same name, if no two nodes
  -- have that name, come from the one node that has it, as the value of its polynomial at the
  -- holder's index and as the commitments to its coefficients.
  pub lookup-Reach :
      {net : Net c g}
      → Reach c g json rec setup net
      → (i j : ℕ) (name : String) (share : c.Scalar) (kept : List c.G1Affine)
      → ((p q : ℕ) → setup.name p ≡ name → setup.name q ≡ name → p ≡ q)
      → lookup name (net.world i).node.shares ≡ some share
      → lookup name (net.world j).node.commitments ≡ some kept
      → (p : ℕ) × (name ≡ setup.name p)
        × (share ≡ evaluate_polynomial c (coeffs c (dealer c setup p)) (setup.idx i))
        × (kept ≡ generate_commitments c (coeffs c (dealer c setup p)))
  lookup-Reach {net} reach i j name share kept apart has has' =
      let (p, named, is_share) =
        All-lookup (IsShare c setup i) name share _
          (Reach-IsHonest c g json rec setup reach i).held.all_shares has in
      let (q, named', is_kept) =
        All-lookup (IsCommitted c setup) name kept _
          (Reach-IsHonest c g json rec setup reach j).held.all_commitments has' in
      (
        p,
        named,
        is_share,
        is_kept
            ∙ ap (λ k. generate_commitments c (coeffs c (dealer c setup k)))
                (apart q p (sym named') (sym named)),
      )

  -- Where every node of a network runs the code, in every interleaving: an acknowledgement that can be
  -- read of what a node has published is in that node's own name, is positive, and is true: the
  -- node holds a share under the name to which it is addressed, and this is the value at the node's
  -- index of the polynomial of a node with that name.
  pub share_ack-Reach :
      {net : Net c g}
      → Reach c g json rec setup net
      → (j at : ℕ) (bytes : List ℕ) (sender_id receiver_id : String) (valid : Bool)
      → get_elem? (rec.published (net.world j).swarm) at ≡ some bytes
      → json.from_slice bytes ≡ some (share_ack sender_id receiver_id valid)
      → (sender_id ≡ setup.name j)
        × (valid ≡ true)
        × ((p : ℕ) × (receiver_id ≡ setup.name p)
            × (lookup receiver_id (net.world j).node.shares
                ≡ some (evaluate_polynomial c (coeffs c (dealer c setup p)) (setup.idx j))))
  share_ack-Reach {net} reach j at bytes sender_id receiver_id valid found read =
      let h = Reach-IsHonest c g json rec setup reach j in
      acknowledged (published-IsSent c g json rec setup j at (net.world j) bytes _ h found read)
        h.held.all_shares
    where
      acknowledged :
          IsSent c g json setup j (net.world j).node.shares (share_ack sender_id receiver_id valid)
          → All (IsShare c setup j) (net.world j).node.shares
          → (sender_id ≡ setup.name j)
            × (valid ≡ true)
            × ((p : ℕ) × (receiver_id ≡ setup.name p)
                × (lookup receiver_id (net.world j).node.shares
                    ≡ some (evaluate_polynomial c (coeffs c (dealer c setup p)) (setup.idx j))))
      acknowledged (inl dealt) h = cc
      acknowledged (inr (name, ack, (share, has))) h =
          let same : receiver_id ≡ name = cc in
          let has' : lookup receiver_id (net.world j).node.shares ≡ some share =
            ap (λ k. lookup k (net.world j).node.shares) same ∙ has in
          let (p, named, e) = All-lookup (IsShare c setup j) receiver_id share _ h has' in
          (cc, cc, (p, named, has' ∙ ap some e))
