-- ===== src/Dkg/Store.antt =====
-- The shares that a node of src/dkg/mod.rs holds after several share distributions in a row.
use mathlib.Core.Path.{subst}
use mpc_node.Common.{
  some_value, ℕ, ◌+◌, ◌≤◌, ◌≡◌, ◌≢◌, refl, sym, ap, ◌∙◌, String, true, List, [], ◌∷◌, ◌++◌, length,
  length-append, find, Option, none, arith, ok, Outcome, All, ◌==◌, Io, pure, and_then, ◌>>◌,
  if◌then◌else◌, str_eq,
}
use mpc_node.Common.HashMap.{HashMap, insert, lookup, lookup-insert}
use mpc_node.Common.RwLock.{unlocked}
use mpc_node.Crypto.{Curve}
use mpc_node.Wire.{Json}
use mpc_node.Types.{
  KeyShare, GossipsubMessage, broadcast, share_distribution, share_validation, dkg,
}
use mpc_node.Dkg.{World, handle_message, own_index, msg_topic_dkg}
use mpc_node.Dkg.Handlers.{handle_message_stores}

module _ (c : Curve) (json : Json (GossipsubMessage c)) where
  open c use {G1Affine}

  -- A sender, its shares and its commitments.
  abbrev pub Distribution : Type 0
  Distribution = String × List (KeyShare c) × List G1Affine

  unfoldable pub handle_all : List Distribution → Io (World c) (Unit {0})
  handle_all [] = pure tt
  handle_all ((sender, shares, commitments) ∷ rest) = do
    handle_message c json (share_distribution sender shares commitments)
    handle_all rest

  -- The share at an index.
  abbrev pub share_at : ℕ → List (KeyShare c) → Option (KeyShare c)
  share_at i shares = find (λ s. s.index == i) shares

  -- What is held of one sender after some distributions: the share of its last one, or what was held
  -- before.
  unfoldable pub latest : ℕ → String → List Distribution → Option (KeyShare c) → Option (KeyShare c)
  latest i name [] held = held
  latest i name ((sender, shares, commitments) ∷ rest) held =
      latest i name rest (if str_eq sender name then share_at i shares else held)

  -- Both locks are free.
  abbrev pub IsFree : HashMap (KeyShare c) → HashMap (List G1Affine) → World c → Type 0
  IsFree stored kept w = (w.node.shares ≡ unlocked stored) × (w.node.commitments ≡ unlocked kept)

  -- A node after some distributions: the outcome is a value, the locks are free, and the map of shares
  -- agrees with `latest` for every sender.
  abbrev pub HoldsLatest :
      ℕ → List Distribution → HashMap (KeyShare c) → Outcome (Unit {0}) × World c → Type 0
  HoldsLatest i rest stored end =
      (end.0 ≡ ok tt)
      × ((stored' : HashMap (KeyShare c)) × (kept' : HashMap (List G1Affine)) × IsFree stored' kept'
            end.1
          × ((name : String) → lookup name stored' ≡ latest i name rest (lookup name stored)))

  -- With both locks free, room in the channel for one message each and validations that can be
  -- written: distributions in a row that each have a share at the node's index are all taken, and for
  -- every sender the node then holds the share of its last distribution, or what it held before
  -- if there is none.
  pub handle_all-HoldsLatest :
      (rest : List Distribution) (w : World c) (stored : HashMap (KeyShare c))
      (kept : HashMap (List G1Affine))
      → IsFree stored kept w
      → All (λ d. share_at (own_index w.node.id) d.1 ≢ none) rest
      → All (λ d. json.to_vec (dkg (share_validation w.node.id d.0 true)) ≢ none) rest
      → w.channel.receiving ≡ true
      → length w.channel.queue + length rest ≤ w.channel.capacity
      → HoldsLatest (own_index w.node.id) rest stored (handle_all rest w)
  unfolding handle_all latest
  handle_all-HoldsLatest [] w stored kept free has written receiving room =
      (refl, (stored, kept, free, λ name. refl))
  handle_all-HoldsLatest ((sender, shares, commitments) ∷ rest) w stored kept free has written
        receiving room =
      let (share, e) = some_value (share_at (own_index w.node.id) shares) has.0 in
      let (bytes, text) =
        some_value (json.to_vec (dkg (share_validation w.node.id sender true))) written.0 in
      let w' : World c = record {
        node = record w.node {
          shares = unlocked (insert sender share stored);
          commitments = unlocked (insert sender commitments kept);
        };
        channel = record w.channel {
          queue = w.channel.queue ++ broadcast msg_topic_dkg bytes ∷ [];
        };
      } in
      let (done, (stored', kept', free', agrees)) =
        handle_all-HoldsLatest rest w' (insert sender share stored) (insert sender commitments kept)
          (refl, refl) has.1 written.1 receiving
          (omega
            (arith, room, length-append w.channel.queue (broadcast msg_topic_dkg bytes ∷ []))) in
      subst (HoldsLatest (own_index w.node.id) ((sender, shares, commitments) ∷ rest) stored)
        (sym (
          ap (λ r. and_then r (λ _. handle_all rest))
            (handle_message_stores c json w sender shares commitments share stored kept bytes e
              free.0 free.1 text receiving (omega (arith, room)))))
        (
          done,
          (
            stored',
            kept',
            free',
            λ name.
                agrees name
                ∙ ap (latest (own_index w.node.id) name rest) (
                    lookup-insert sender name share stored
                    ∙ ap (λ o. if str_eq sender name then o else lookup name stored) (sym e)),
          ),
        )
