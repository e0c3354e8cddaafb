-- ===== src/Adkg/Delivery.antt =====
-- The proposals of several honest dealers, delivered one after another to a node of
-- src/adkg_layer.bkp.rs: which shares and commitments it then holds.
use mpc_node.Common.{
  ℕ, ◌≤◌, ◌≡◌, ◌≢◌, refl, sym, ap, ap₂, ◌∙◌, true, List, [], ◌∷◌, ◌++◌, none, ok, All, and_then,
}
use mathlib.Core.List.{append-nil}
use mpc_node.Common.HashMap.{lookup-insert_ne, insert-append, lookup}
use mpc_node.Crypto.{Curve}
use mpc_node.Wire.{Json, Gossip}
use mpc_node.Adkg.{
  AdkgNode, AdkgMessage, World, share_ack, evaluate_polynomial, generate_commitments,
  handle_message,
}
use mpc_node.Adkg.Completion.{stored}
use mpc_node.Adkg.Protocol.{
  Dealer, coeffs, dealt_shares, dealt_commitments, proposal_of, deliver, handle_message_honest,
  Arrival, dealers_of, IsTaken,
}

module _ (c : Curve) where
  -- No two dealers have one name.
  abbrev pub Distinct : List (Dealer c) → Type 0
  Distinct [] = Unit {0}
  Distinct (d ∷ dealers) = All (λ e. e.0 ≢ d.0) dealers × Distinct dealers

  -- The node has nothing of the dealer yet.
  abbrev pub IsFresh : AdkgNode c → Dealer c → Type 0
  IsFresh node d = (lookup d.0 node.shares ≡ none) × (lookup d.0 node.commitments ≡ none)

  -- The node once it holds what the dealers gave to it.
  abbrev pub with_dealt : AdkgNode c → List (Dealer c) → AdkgNode c
  with_dealt node dealers = record node {
    shares = node.shares ++ dealt_shares c node.idx dealers;
    commitments = node.commitments ++ dealt_commitments c dealers;
  }

module _ (c : Curve) (g : Gossip) (json : Json (AdkgMessage c)) where
  abbrev pub after : AdkgNode c → Dealer c → AdkgNode c
  after node d =
      stored c g json node d.0 (evaluate_polynomial c (coeffs c d) node.idx)
        (generate_commitments c (coeffs c d))

  pub others_kept :
      (node : AdkgNode c) (d : Dealer c) (dealers : List (Dealer c))
      → All (λ e. e.0 ≢ d.0) dealers
      → All (IsFresh c node) dealers
      → All (IsFresh c (after node d)) dealers
  others_kept node d [] ne fresh = tt
  others_kept node d (e ∷ dealers) ne fresh = (
    (
      lookup-insert_ne d.0 e.0 _ node.shares fresh.0.0 ne.0,
      lookup-insert_ne d.0 e.0 _ node.commitments fresh.0.1 ne.0,
    ),
    others_kept node d dealers ne.1 fresh.1,
  )

  pub after_dealt :
      (node : AdkgNode c) (d : Dealer c) (dealers : List (Dealer c))
      → IsFresh c node d
      → with_dealt c (after node d) dealers ≡ with_dealt c node (d ∷ dealers)
  after_dealt node d dealers fresh =
      ap₂ (λ s k. record node { shares = s; commitments = k })
        (insert-append d.0 _ node.shares (dealt_shares c node.idx dealers) fresh.0)
        (insert-append d.0 _ node.commitments (dealt_commitments c dealers) fresh.1)

  deliver_step :
      (w w' : World c g) (n : ℕ) (a : Arrival c g json) (arrivals : List (Arrival c g json))
      → handle_message c g json (proposal_of c g json n a.dealer) (record w { swarm = a.swarm })
        ≡ (ok tt, w')
      → deliver c g json n (a ∷ arrivals) w ≡ deliver c g json n arrivals w'
  unfolding deliver
  deliver_step w w' n a arrivals e = ap (λ r. and_then r (λ _. deliver c g json n arrivals)) e

  -- At a node with an index from 1 to n, the proposals of honest dealers are all accepted, if the
  -- dealers have names of their own, are new to the node, and each acknowledgement can be written
  -- and is published in the swarm as it is when the proposal arrives: the node then holds, of
  -- every dealer, the value of its polynomial at the node's own index and its commitments, and
  -- nothing else of it has changed.
  pub deliver-with_dealt :
      (arrivals : List (Arrival c g json)) (w : World c g) (n : ℕ)
      → 1 ≤ w.node.idx
      → w.node.idx ≤ n
      → Distinct c (dealers_of c g json arrivals)
      → All (IsFresh c w.node) (dealers_of c g json arrivals)
      → All (λ a. IsTaken c g json a.swarm (share_ack w.node.id a.dealer.0 true)) arrivals
      → ((deliver c g json n arrivals w).0 ≡ ok tt)
        × ((deliver c g json n arrivals w).1.node
            ≡ with_dealt c w.node (dealers_of c g json arrivals))
  deliver-with_dealt [] w n lo hi distinct fresh taken =
      unfold deliver in
      (
        refl,
        ap₂ (λ s k. record w.node { shares = s; commitments = k }) (sym (append-nil w.node.shares))
            (sym (append-nil w.node.commitments)),
      )
  deliver-with_dealt (a ∷ arrivals) w n lo hi distinct fresh taken =
      let w' : World c g = record { node = after w.node a.dealer; swarm = taken.0.later } in
      let moved = deliver_step w w' n a arrivals (
        handle_message_honest c g json (record w { swarm = a.swarm }) n a.dealer taken.0.bytes
          taken.0.later lo hi taken.0.written taken.0.sent) in
      let later =
        deliver-with_dealt arrivals w' n lo hi distinct.1
          (others_kept w.node a.dealer (dealers_of c g json arrivals) distinct.0 fresh.1) taken.1 in
      (
        ap (λ r. r.0) moved ∙ later.0,
        ap (λ r. r.1.node) moved
            ∙ later.1
            ∙ after_dealt w.node a.dealer (dealers_of c g json arrivals) fresh.0,
      )
