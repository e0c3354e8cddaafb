-- ===== src/Signing/Gathering.antt =====
-- A signing node of src/signing/mod.rs that takes several signature shares in a row and then aggregates
-- them.
use mathlib.Core.List.{Permᴰ, append-nil}
use mpc_node.Common.{
  ◌≡◌, ◌≢◌, refl, sym, ap, ◌∙◌, String, List, [], ◌∷◌, ◌++◌, map, none, ok, All, Io, pure, ◌>>◌,
  and_then,
}
use mpc_node.Common.HashMap.{
  HashMap, IsUnique, insert, lookup, values, lookup-insert_ne, insert-append,
}
use mpc_node.Common.RwLock.{unlocked}
use mpc_node.Crypto.{Curve}
use mpc_node.Crypto.Field.{sum}
use mpc_node.Crypto.Points.{sum-map-perm}
use mpc_node.Wire.{Json}
use mpc_node.Types.{SigningMessage, signature_share}
use mpc_node.Signing.{World, handle_message, aggregate_signature_shares}
use mpc_node.Signing.Laws.{handle_signature_share_stores, aggregate_signature_shares-sum}

module _ (c : Curve) (json : Json (SigningMessage c)) where
  open c use {Scalar}

  -- The shares of these senders, one message each.
  unfoldable pub gather : List (String × Scalar) → Io (World c) (Unit {0})
  gather [] = pure tt
  gather ((sender, share) ∷ rest) = do
    handle_message c json (signature_share sender share)
    gather rest

  -- The node with these shares in its store.
  abbrev with_stored : World c → HashMap Scalar → World c
  with_stored w stored = record w { node = record w.node { signature_shares = unlocked stored } }

  still_fresh :
      (sender : String) (share : Scalar) (stored : HashMap Scalar) (rest : List (String × Scalar))
      → All (λ e. e.0 ≢ sender) rest
      → All (λ e. lookup e.0 stored ≡ none) rest
      → All (λ e. lookup e.0 (insert sender share stored) ≡ none) rest
  still_fresh sender share stored [] ne fresh = tt
  still_fresh sender share stored (e ∷ rest) ne fresh = (
    lookup-insert_ne sender e.0 share stored fresh.0 ne.0,
    still_fresh sender share stored rest ne.1 fresh.1,
  )

  gather-stores :
      (shares : List (String × Scalar)) (w : World c) (stored : HashMap Scalar)
      → w.node.signature_shares ≡ unlocked stored
      → IsUnique shares
      → All (λ e. lookup e.0 stored ≡ none) shares
      → gather shares w ≡ (ok tt, with_stored w (stored ++ shares))
  unfolding gather
  gather-stores [] w stored e unique fresh =
      ap (λ s. (ok tt, record w { node = record w.node { signature_shares = s } }))
        (e ∙ ap unlocked (sym (append-nil stored)))
  gather-stores ((sender, share) ∷ rest) w stored e unique fresh =
      ap (λ r. and_then r (λ _. gather rest))
        (handle_signature_share_stores c json w sender share stored e)
      ∙ gather-stores rest (with_stored w (insert sender share stored)) (insert sender share stored)
          refl unique.1 (still_fresh sender share stored rest unique.0 fresh.1)
      ∙ ap (λ s. (ok tt, with_stored w s)) (insert-append sender share stored rest fresh.0)

  values-map : (m : HashMap Scalar) → values m ≡ map (λ e. e.1) m
  values-map [] = refl
  values-map (e ∷ m) = ap (λ l. e.1 ∷ l) (values-map m)

  absent_before :
      (shares : List (String × Scalar)) → All (λ e. lookup {V = Scalar} e.0 [] ≡ none) shares
  unfolding lookup
  absent_before [] = tt
  absent_before (e ∷ shares) = (refl, absent_before shares)

  aggregate_signature_shares-gather :
      (shares : List (String × Scalar)) (w : World c)
      → w.node.signature_shares ≡ unlocked []
      → IsUnique shares
      → ((do gather shares; aggregate_signature_shares c) w).0 ≡ ok (sum c (map (λ e. e.1) shares))
  aggregate_signature_shares-gather shares w e unique =
      ap (λ r. (and_then r (λ _. aggregate_signature_shares c)).0)
        (gather-stores shares w [] e unique (absent_before shares))
      ∙ ap (λ r. r.0) (aggregate_signature_shares-sum c (with_stored w shares) refl)
      ∙ ap (λ l. ok (sum c l)) (values-map shares)

  -- Two nodes whose stores of signature shares are empty, with the locks free, take the shares of the
  -- same senders, each of which sends one, in two orders: both aggregate the sum of the shares.
  pub gather-perm :
      (w v : World c) (shares shares' : List (String × Scalar))
      → w.node.signature_shares ≡ unlocked []
      → v.node.signature_shares ≡ unlocked []
      → IsUnique shares
      → IsUnique shares'
      → Permᴰ shares shares'
      → (((do gather shares; aggregate_signature_shares c) w).0
          ≡ ok (sum c (map (λ e. e.1) shares)))
        × (((do gather shares'; aggregate_signature_shares c) v).0
            ≡ ok (sum c (map (λ e. e.1) shares)))
  gather-perm w v shares shares' e e' unique unique' p = (
    aggregate_signature_shares-gather shares w e unique,
    aggregate_signature_shares-gather shares' v e' unique'
        ∙ ap ok (sym (sum-map-perm c (λ (s : String × Scalar). s.1) p)),
  )
