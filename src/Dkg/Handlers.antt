-- ===== src/Dkg/Handlers.antt =====
-- The handlers of src/dkg/mod.rs: a share distribution, a share validation, and the group key.
use mpc_node.Common.{
  ℕ, ◌<◌, ◌≡◌, ◌≢◌, refl, ap, ◌∙◌, String, Bool, true, false, List, [], ◌∷◌, ◌++◌, map, length,
  find, none, some, arith, ok, blocked, All, ◌==◌,
}
use mpc_node.Common.HashMap.{HashMap, insert, values}
use mpc_node.Common.RwLock.{unlocked, lock_write, lock_read, drop_write}
use mpc_node.Crypto.{Curve}
use mpc_node.Crypto.Field.{sum}
use mpc_node.Crypto.Points
use mpc_node.Wire.{Json, Bytes}
use mpc_node.Channel.{send}
use mpc_node.Types.{
  KeyShare, GossipsubMessage, broadcast, share_distribution, share_validation, dkg,
}
use mpc_node.Dkg.{
  World, handle_message, push_validation, own_index, msg_topic_dkg, generate_group_key,
  verify_shares,
}
use mpc_node.Common.Parse.{parse_usize, usize_max}

own_index-none : (id : String) → parse_usize id ≡ none → own_index id ≡ usize_max
unfolding own_index
own_index-none id e = rw (e, own_index) refl

module _ (c : Curve) (json : Json (GossipsubMessage c)) where
  infixl 75 ◌⊙◌
  open c use {Scalar, G1Affine, generator, ◌⊙◌}

  find-none :
      (i : ℕ) (shares : List (KeyShare c))
      → All (λ s. s.index ≢ i) shares
      → find (λ s. s.index == i) shares ≡ none
  find-none i [] h = refl
  find-none i (s ∷ shares) h = ground (arith, h.0, find-none i shares h.1)

  -- A node whose id is no decimal number, as the text of a peer id is none, takes no share out of
  -- any distribution with ordinary indices: it stores nothing and it validates nothing.
  pub handle_message_no_index :
      (w : World c) (sender : String) (shares : List (KeyShare c)) (commitments : List G1Affine)
      → parse_usize w.node.id ≡ none
      → All (λ s. s.index ≢ usize_max) shares
      → handle_message c json (share_distribution sender shares commitments) w ≡ (ok tt, w)
  unfolding handle_message verify_shares
  handle_message_no_index w sender shares commitments e h = ground (arith, found)
    where
      found : find (λ s. s.index == own_index w.node.id) shares ≡ none
      found =
          ap (λ (i : ℕ). find (λ s. s.index == i) shares) (own_index-none w.node.id e)
          ∙ find-none usize_max shares h

  -- With both locks free, room in the channel and a validation that can be written: of a
  -- distribution with a share at the node's index, the share and the commitments are stored under
  -- the sender's name, and the validation is queued; nothing else changes.
  pub handle_message_stores :
      (w : World c) (sender : String) (shares : List (KeyShare c)) (commitments : List G1Affine)
      (share : KeyShare c) (stored : HashMap (KeyShare c)) (kept : HashMap (List G1Affine))
      (bytes : Bytes)
      → find (λ s. s.index == own_index w.node.id) shares ≡ some share
      → w.node.shares ≡ unlocked stored
      → w.node.commitments ≡ unlocked kept
      → json.to_vec (dkg (share_validation w.node.id sender true)) ≡ some bytes
      → w.channel.receiving ≡ true
      → length w.channel.queue < w.channel.capacity
      → handle_message c json (share_distribution sender shares commitments) w ≡ (
        ok tt,
        record {
          node = record w.node {
            shares = unlocked (insert sender share stored);
            commitments = unlocked (insert sender commitments kept);
          };
          channel = record w.channel {
            queue = w.channel.queue ++ broadcast msg_topic_dkg bytes ∷ [];
          };
        },
      )
  unfolding handle_message verify_shares lock_write drop_write send
  handle_message_stores w sender shares commitments share stored kept bytes found s k e op room =
      ground (arith, found, s, k, e, op, room)

  -- With the lock on the validations free, a validation never returns: the guard that it holds
  -- keeps `check_completion` waiting. The validation has been recorded by then, and the lock
  -- stays taken.
  pub handle_message_deadlock :
      (w : World c) (sender to : String) (is_valid : Bool) (old : HashMap (List Bool))
      → w.node.validations ≡ unlocked old
      → handle_message c json (share_validation sender to is_valid) w ≡ (
        blocked,
        record w {
          node = record w.node {
            validations = record {
              value = push_validation c to is_valid old;
              writing = true;
              readers = 0;
            };
          };
        },
      )
  unfolding handle_message lock_write lock_read
  handle_message_deadlock w sender to is_valid old e = ground (arith, e)

  shares_points :
      (shares : HashMap (KeyShare c))
      → map (λ share. generator ⊙ share.value) (values shares)
        ≡ map (λ s. generator ⊙ s) (map (λ share. share.value) (values shares))
  shares_points [] = refl
  shares_points ((k, s) ∷ shares) = ap (λ ps. (generator ⊙ s.value) ∷ ps) (shares_points shares)

  -- When no writer holds the lock, the point that is called the group key is the generator times
  -- the sum of this node's own shares, and computing it changes nothing.
  pub generate_group_key-sum :
      (w : World c)
      → w.node.shares.writing ≡ false
      → generate_group_key c w
        ≡ (ok (generator ⊙ sum c (map (λ share. share.value) (values w.node.shares.value))), w)
  unfolding generate_group_key lock_read
  generate_group_key-sum w free = ground (arith, free, point)
    where
      point :
          Points.accumulate_points c c.identity
            (map (λ share. generator ⊙ share.value) (values w.node.shares.value))
          ≡ generator ⊙ sum c (map (λ share. share.value) (values w.node.shares.value))
      point =
          ap (Points.accumulate_points c c.identity) (shares_points w.node.shares.value)
          ∙ Points.accumulate_points-sum c (map (λ share. share.value) (values w.node.shares.value))
