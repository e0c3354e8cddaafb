-- ===== src/Signing/Laws.antt =====
-- The signing rounds of src/signing/mod.rs: what is sent, when, and what the aggregation adds up.
use mpc_node.Common.{ℕ, ◌<◌, ◌≡◌, String, true, false, [], ◌∷◌, ◌++◌, length, some, arith, ok}
use mpc_node.Common.HashMap.{HashMap, insert, values}
use mpc_node.Common.RwLock.{unlocked, lock_write, lock_read, drop_write, drop_read}
use mpc_node.Crypto.{Curve}
use mpc_node.Crypto.Field.{sum}
use mpc_node.Crypto.Points
use mpc_node.Wire.{Json, Bytes}
use mpc_node.Channel.{send}
use mpc_node.Types.{SigningMessage, commitment_share, signature_share, broadcast}
use mpc_node.Signing.{
  SigningNode, World, start_signing, get_commitments, handle_message, aggregate_signature_shares,
  push_nonces,
}

module _ (c : Curve) where
  open c use {Scalar, zero_scalar}

  -- The aggregate is the sum of the shares that are stored; taking it changes nothing.
  pub aggregate_signature_shares-sum :
      (w : World c)
      → w.node.signature_shares.writing ≡ false
      → aggregate_signature_shares c w ≡ (ok (sum c (values w.node.signature_shares.value)), w)
  unfolding aggregate_signature_shares lock_read
  aggregate_signature_shares-sum w free =
      ground (arith, free, Points.accumulate_zero-sum c (values w.node.signature_shares.value))

module _ (c : Curve) (json : Json (SigningMessage c)) where
  open c use {Scalar, zero_scalar}

  -- The node once it has drawn a pair of nonces.
  abbrev pub with_nonce : SigningNode c → (ℕ → Scalar) → SigningNode c
  with_nonce node rng = record node { nonces = node.nonces ++ (rng 0, rng 1) ∷ [] }

  -- A start whose message can be written and that the channel has room for draws one pair of
  -- nonces and queues one message, on the signing topic, with the commitments to every pair that
  -- the node has drawn.
  pub start_signing_broadcasts :
      (w : World c) (rng : ℕ → Scalar) (message bytes : Bytes)
      → json.to_vec (commitment_share w.node.id (get_commitments c (with_nonce w.node rng)))
        ≡ some bytes
      → w.channel.receiving ≡ true
      → length w.channel.queue < w.channel.capacity
      → start_signing c json rng message w ≡ (
        ok tt,
        record {
          node = with_nonce w.node rng;
          channel = record w.channel { queue = w.channel.queue ++ broadcast "signing" bytes ∷ [] };
        },
      )
  unfolding start_signing send push_nonces
  start_signing_broadcasts w rng message bytes e op room = ground (arith, e, op, room)

  -- With the lock free, a signature share is stored under its sender's name, below and above the
  -- threshold; both lock guards are given back, so the node can go on.
  pub handle_signature_share_stores :
      (w : World c) (sender : String) (share : Scalar) (stored : HashMap Scalar)
      → w.node.signature_shares ≡ unlocked stored
      → handle_message c json (signature_share sender share) w ≡ (
        ok tt,
        record w {
          node = record w.node { signature_shares = unlocked (insert sender share stored) };
        },
      )
  unfolding handle_message lock_write lock_read drop_write drop_read
  handle_signature_share_stores w sender share stored e = ground (arith, e)
