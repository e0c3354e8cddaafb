-- ===== src/Cluster/Completion.antt =====
-- The keys that a node of src/adkg_layer.bkp.rs comes to in a network where every node runs the code.
use mpc_node.Common.{ℕ, ◌+◌, ◌≤◌, ◌≡◌, sym, ap, ◌∙◌, String, true, some, List, map, ok, arith}
use mpc_node.Crypto.{Curve}
use mpc_node.Crypto.Field.{sum}
use mpc_node.Wire.{Json, Gossip}
use mpc_node.Adkg.{
  AdkgMessage, share_ack, evaluate_polynomial, generate_commitments, count_valid, handle_message,
}
use mpc_node.Adkg.Protocol.{coeffs, dealt_shares, dealt_commitments, handle_message_counts}
use mpc_node.Adkg.Delivery.{Distinct}
use mpc_node.Cluster.{Recorded, Setup, Net, Reach}
use mpc_node.Cluster.Dealt.{dealer, dealers_of}
use mpc_node.Cluster.Invariant.{Reach-IsHonest}

module _ (c : Curve) (g : Gossip) (json : Json (AdkgMessage c)) (rec : Recorded g)
    (setup : Setup c) where
  infixl 75 ◌⊙◌
  open c use {generator, ◌⊙◌}

  -- The node `i` of a network where every node runs the code, at any moment of any interleaving.
  -- What it holds is what nodes with different names have dealt: each share is the value at its
  -- index of a polynomial, and each list the commitments to one. A valid acknowledgement for it that
  -- brings the count to the threshold is handled without an error; the node then has a key share
  -- and the public key: the sum of the values of exactly the dealers whose shares it holds, and
  -- the generator times the sum of the secrets of exactly the dealers whose commitments it holds.
  pub handle_message-Reach :
      {net : Net c g}
      → Reach c g json rec setup net
      → (i : ℕ) (sender_id : String) → setup.t ≤ count_valid c (net.world i).node.acks + 1
      → let end = handle_message c g json (share_ack sender_id (setup.name i) true) (net.world i) in
        (held : List ℕ) × (committed : List ℕ) × Distinct c (map (dealer c setup) held)
        × Distinct c (map (dealer c setup) committed)
        × ((net.world i).node.shares ≡ dealt_shares c (setup.idx i) (map (dealer c setup) held))
        × ((net.world i).node.commitments ≡ dealt_commitments c (map (dealer c setup) committed))
        × (end.0 ≡ ok tt)
        × (end.1.node.secret_key_share
            ≡ some (
                sum c (
                  map
                    (λ d. evaluate_polynomial c (coeffs c d) (setup.idx i))
                    (map (dealer c setup) held))))
        × (end.1.node.public_key
            ≡ some (generator ⊙ sum c (map (λ d. d.1) (map (dealer c setup) committed))))
  handle_message-Reach {net} reach i sender_id enough =
      let h = Reach-IsHonest c g json rec setup reach i in
      let w = net.world i in
      let (held, apart, shares) =
        dealers_of c setup (λ d. evaluate_polynomial c (coeffs c d) (setup.idx i)) w.node.shares
          h.held.all_shares h.held.unique_shares in
      let (committed, apart', commitments) =
        dealers_of c setup (λ d. generate_commitments c (coeffs c d)) w.node.commitments
          h.held.all_commitments h.held.unique_commitments in
      let done =
        ap (λ id. handle_message c g json (share_ack sender_id id true) w) (sym h.named)
        ∙ handle_message_counts c g json w sender_id (map (dealer c setup) held)
            (map (dealer c setup) committed)
            (shares ∙ ap (λ k. dealt_shares c k (map (dealer c setup) held)) (sym h.indexed))
            commitments (omega (arith, enough, h.bounded)) in
      (
        held,
        committed,
        apart,
        apart',
        shares,
        commitments,
        ap (λ r. r.0) done,
        ap (λ r. r.1.node.secret_key_share) done
            ∙ ap
                (λ k. some (
                  sum c
                    (map (λ d. evaluate_polynomial c (coeffs c d) k) (map (dealer c setup) held))))
                h.indexed,
        ap (λ r. r.1.node.public_key) done,
      )
