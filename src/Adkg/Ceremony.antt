-- ===== src/Adkg/Ceremony.antt =====
-- A node of src/adkg_layer.bkp.rs from its start to its completion: it deals, takes the proposals of the
-- other dealers, and then takes acknowledgements.
use mathlib.Core.Path.{subst}
use mathlib.Core.List.{flatten}
use mpc_node.Common.{
  ℕ, ◌+◌, ◌≤◌, ◌≡◌, ◌≢◌, refl, sym, ap, ◌∙◌, String, true, List, [], ◌∷◌, length, ok, arith, All,
  Io, pure, get, ◌>>=◌, ◌>>◌, and_then, and_then-returned, Outcome,
}
use mpc_node.Common.HashMap.{insert}
use mpc_node.Crypto.{Curve}
use mpc_node.Wire.{Json, Gossip}
use mpc_node.Adkg
use mpc_node.Adkg.{AdkgNode, AdkgMessage, World, share_ack, count_valid, handle_message, start_adkg}
use mpc_node.Adkg.Delivery.{Distinct, deliver-with_dealt}
use mpc_node.Adkg.Holding.{IsHolding, IsDone, handle_ack, heard-IsFresh}
use mpc_node.Adkg.Protocol.{Dealer, proposal_of, deliver, Arrival, dealers_of, IsTaken}
use mpc_node.Adkg.Start.{own_dealer, started, start_adkg-started}

module _ (c : Curve) (g : Gossip) (json : Json (AdkgMessage c)) where
  open c use {Scalar}

  -- Acknowledgements of these senders for the node `id`, one after another.
  unfoldable pub acknowledge : String → List String → Io (World c g) (Unit {0})
  acknowledge id [] = pure tt
  acknowledge id (sender_id ∷ senders) = do
    handle_message c g json (share_ack sender_id id true)
    acknowledge id senders

  -- What the node is made to do, in order.
  unfoldable pub attend :
      (ℕ → Scalar) → List (Arrival c g json) → List String → Io (World c g) (Unit {0})
  attend rng arrivals senders = do
    start_adkg c g json rng
    w ← get
    deliver c g json w.node.n arrivals
    acknowledge w.node.id senders

  module _ (me : String) (idx t : ℕ) (heard committed : List (Dealer c)) where
    abbrev Holding : AdkgNode c → Type 0
    Holding = IsHolding c g json me idx t heard committed

    abbrev Done : AdkgNode c → Type 0
    Done = IsDone c g json me idx t heard committed

    -- Enough acknowledgements complete the node, and further ones leave it completed.
    acknowledge-IsDone :
        (senders : List String) (w : World c g)
        → Holding w.node
        → (t ≤ count_valid c w.node.acks → Done w.node)
        → t ≤ count_valid c w.node.acks + length senders
        → ((acknowledge me senders w).0 ≡ ok tt)
          × Holding (acknowledge me senders w).1.node
          × Done (acknowledge me senders w).1.node
    unfolding acknowledge
    acknowledge-IsDone [] w h done enough = (refl, h, done (omega (arith, enough)))
    acknowledge-IsDone (sender_id ∷ senders) w h done enough =
        let (w', e, still, counted, done') =
          handle_ack c g json me idx t heard committed w sender_id h in
        subst
          (λ (r : Outcome (Unit {0}) × World c g).
            ((and_then r (λ _. acknowledge me senders)).0 ≡ ok tt)
            × Holding (and_then r (λ _. acknowledge me senders)).1.node
            × Done (and_then r (λ _. acknowledge me senders)).1.node)
          (sym e) (acknowledge-IsDone senders w' still done' (omega (arith, counted, enough)))

  -- A new node.
  abbrev pub new_world : String → ℕ → ℕ → ℕ → g.Swarm → World c g
  new_world id n t idx swarm = record { node = Adkg.new c id n t idx; swarm = swarm }

  -- A new node, with an index from 1 to `n` and a positive threshold `t`, deals, takes the
  -- proposals of honest dealers, whose names differ from one another and from its own, and then
  -- at least `t` acknowledgements, of one sender or of several. Where each of its own messages
  -- can be written and is published in the swarm as it is at that moment, no call fails, and the
  -- node has its key share, the sum of what the dealers gave to it, and the public key of their
  -- secrets and its own.
  pub attend-IsDone :
      (id : String) (n t idx : ℕ) (swarm : g.Swarm) (rng : ℕ → Scalar)
      (arrivals : List (Arrival c g json)) (senders : List String)
      → 1 ≤ t
      → 1 ≤ idx
      → idx ≤ n
      → Distinct c (dealers_of c g json arrivals)
      → All (λ d. d.0 ≢ id) (dealers_of c g json arrivals)
      → t ≤ length senders
      → IsTaken c g json swarm
          (proposal_of c g json n (own_dealer c g json (new_world id n t idx swarm) rng))
      → All (λ a. IsTaken c g json a.swarm (share_ack id a.dealer.0 true)) arrivals
      → let heard = dealers_of c g json arrivals in
        let own = own_dealer c g json (new_world id n t idx swarm) rng in
        let end = attend rng arrivals senders (new_world id n t idx swarm) in
        (end.0 ≡ ok tt)
        × (end.1.node.idx ≡ idx)
        × IsDone c g json id idx t heard (own ∷ heard) end.1.node
  unfolding attend insert count_valid flatten
  attend-IsDone id n t idx swarm rng arrivals senders lo lo' hi distinct others enough taken
        taken' =
      let heard = dealers_of c g json arrivals in
      let w = new_world id n t idx swarm in
      let own = own_dealer c g json w rng in
      let w' = started c g json w rng taken.later in
      let (delivered, holds) =
        deliver-with_dealt c g json arrivals w' n lo' hi distinct
          (heard-IsFresh c g json own w'.node heard refl refl others) taken' in
      let w'' = (deliver c g json n arrivals w').1 in
      let state =
        ap (λ r. and_then r (λ _. get >>= going))
          (start_adkg-started c g json w rng taken.bytes taken.later taken.written taken.sent)
        ∙ and_then-returned (deliver c g json n arrivals w') (λ _. acknowledge id senders)
            delivered in
      let holding : IsHolding c g json id idx t heard (own ∷ heard) w''.node = record {
        named = ap (λ (k : AdkgNode c). k.id) holds;
        indexed = ap (λ (k : AdkgNode c). k.idx) holds;
        bounded = ap (λ (k : AdkgNode c). k.t) holds;
        has_shares = ap (λ (k : AdkgNode c). k.shares) holds;
        has_commitments = ap (λ (k : AdkgNode c). k.commitments) holds;
      } in
      let uncounted : count_valid c w''.node.acks ≡ 0 =
        ap (λ (k : AdkgNode c). count_valid c k.acks) holds in
      let (returns, held, done) =
        acknowledge-IsDone id idx t heard (own ∷ heard) senders w'' holding
          (λ h. absurd (omega (arith, uncounted))) (omega (arith, enough)) in
      (
        ap (λ r. r.0) state ∙ returns,
        ap (λ r. r.1.node.idx) state ∙ held.indexed,
        (
          ap (λ r. r.1.node.secret_key_share) state ∙ done.0,
          ap (λ r. r.1.node.public_key) state ∙ done.1,
        ),
      )
    where
      going : World c g → Io (World c g) (Unit {0})
      going v = deliver c g json v.node.n arrivals >> acknowledge v.node.id senders
