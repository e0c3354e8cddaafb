-- ===== src/Cluster/Invariant.antt =====
-- The nodes of src/adkg_layer.bkp.rs on one network stay honest in every interleaving of their steps.
use mathlib.Core.Path.{subst}
use mathlib.Core.Option.{some-injective}
use mpc_node.Common.{
  ℕ, ◌≡◌, sym, ap, ◌∙◌, Bool-cases, inl, inr, some, List, All, ◌==◌, ==_iff, Outcome, All-get_elem?,
  get_elem?,
}
use mpc_node.Common.HashMap.{HashMap}
use mpc_node.Crypto.{Curve}
use mpc_node.Wire.{Json, Gossip}
use mpc_node.Adkg.{AdkgMessage, World}
use mpc_node.Cluster.{
  Recorded, Setup, Net, moved, Step, start, receive, IsInitial, Reach, begin, step,
}
use mpc_node.Cluster.Sent.{IsSent, IsWritten}
use mpc_node.Cluster.Honest.{Holds, IsHonest, handle_message-IsHonest, start_adkg-IsHonest}

module _ (c : Curve) (g : Gossip) where
  -- A step of node `i` leaves the others as they are.
  pub world-moved :
      (P : ℕ → World c g → Type 0) (net : Net c g) (i : ℕ) (r : Outcome (Unit {0})) (w : World c g)
      → ((j : ℕ) → P j (net.world j))
      → P i w
      → (j : ℕ) → P j ((moved c g net i r w).world j)
  unfolding moved
  world-moved P net i r w h p j = elim (Bool-cases (i == j)) [
    | inl e ↦ rw e (subst (λ k. P k w) ((==_iff i j).0 e) p)
    | inr e ↦ rw e (h j)
  ]

module _ (c : Curve) (g : Gossip) (json : Json (AdkgMessage c)) (rec : Recorded g)
    (setup : Setup c) where
  first-IsHonest :
      (net : Net c g) (i : ℕ)
      → IsInitial c g json rec setup net
      → IsHonest c g json rec setup i (net.world i)
  first-IsHonest net i h =
      let e = h.is_new i in
      record {
        named = ap (λ n. n.id) e;
        indexed = ap (λ n. n.idx) e;
        sized = ap (λ n. n.n) e;
        bounded = ap (λ n. n.t) e;
        held =
            subst (λ n. Holds c g json rec setup i n.shares n.commitments) (sym e)
              (record {
                all_shares = tt;
                all_commitments = tt;
                unique_shares = tt;
                unique_commitments = tt;
              });
        published =
            subst (All (IsWritten c g json setup i (net.world i).node.shares)) (sym (h.is_silent i))
              tt;
      }

  -- What is read of bytes that a node has published is what it wrote.
  read-IsSent :
      (p : ℕ) (shares : HashMap c.Scalar) (bytes : List ℕ) (msg : AdkgMessage c)
      → IsWritten c g json setup p shares bytes
      → json.from_slice bytes ≡ some msg
      → IsSent c g json setup p shares msg
  read-IsSent p shares bytes msg (sent, is_sent, e) read =
      subst (IsSent c g json setup p shares)
        (some-injective sent msg (sym (json.from_slice-to_vec sent bytes e) ∙ read)) is_sent

  -- What can be read of a node's publications, while it is honest.
  pub published-IsSent :
      (p at : ℕ) (w : World c g) (bytes : List ℕ) (msg : AdkgMessage c)
      → IsHonest c g json rec setup p w
      → get_elem? (rec.published w.swarm) at ≡ some bytes
      → json.from_slice bytes ≡ some msg
      → IsSent c g json setup p w.node.shares msg
  published-IsSent p at w bytes msg h found read =
      read-IsSent p w.node.shares bytes msg
        (All-get_elem? (IsWritten c g json setup p w.node.shares) _ at bytes h.published found) read

  step-IsHonest :
      {net net' : Net c g}
      → ((j : ℕ) → IsHonest c g json rec setup j (net.world j))
      → Step c g json rec setup net net'
      → (j : ℕ) → IsHonest c g json rec setup j (net'.world j)
  step-IsHonest {net} {net'} h (start i r w waits e moves) =
      subst (λ n. (j : ℕ) → IsHonest c g json rec setup j (n.world j)) (sym moves)
        (world-moved c g (IsHonest c g json rec setup) net i r w h (
          subst (IsHonest c g json rec setup i) (ap (λ q. q.1) e)
            (start_adkg-IsHonest c g json rec setup i (net.world i) (h i))))
  step-IsHonest {net} {net'} h (receive i from at bytes msg r w loops apart found read e moves) =
      subst (λ n. (j : ℕ) → IsHonest c g json rec setup j (n.world j)) (sym moves)
        (world-moved c g (IsHonest c g json rec setup) net i r w h (
          subst (IsHonest c g json rec setup i) (ap (λ q. q.1) e) (
            handle_message-IsHonest c g json rec setup i from msg (net.world i)
              (net.world from).node.shares
              (published-IsSent from at (net.world from) bytes msg (h from) found read) (h i))))

  -- Nodes that all run the code stay honest, in every interleaving.
  pub Reach-IsHonest :
      {net : Net c g}
      → Reach c g json rec setup net
      → (i : ℕ) → IsHonest c g json rec setup i (net.world i)
  Reach-IsHonest (begin {net} h) i = first-IsHonest net i h
  Reach-IsHonest (step reach s) i = step-IsHonest (Reach-IsHonest reach) s i
