-- ===== src/Signing.antt =====
-- src/signing/mod.rs: the FROST signing node. A call of `Scalar::random(&mut rng)` is the next value
-- of the argument `rng`.
pub mod Laws
pub mod Gathering
use mpc_node.Common.{
  ℕ, zero, suc, ◌+◌, String, Bool, true, false, Option, none, some, List, [], ◌∷◌, ◌++◌, map,
  length, leb, Io, Outcome, ok, pure, modify, or_fail, when, guarded, wait, ◌>>=◌, ◌>>◌,
}
use mpc_node.Common.HashMap.{HashMap, insert, values}
use mpc_node.Common.RwLock.{RwLock, unlocked, lock_write, lock_read, drop_write, drop_read}
use mpc_node.Crypto.{Curve}
use mpc_node.Crypto.Points.{accumulate}
use mpc_node.Wire.{Json, Bytes}
use mpc_node.Channel.{Channel, send}
use mpc_node.Types.{
  KeyShare, FrostCommitment, SigningMessage, commitment_share, signature_share, broadcast,
}

pub record SigningNode (c : Curve) : Type 0 where
  pub id : String
  pub threshold : ℕ
  pub key_share : KeyShare c
  pub group_key : c.G1Projective
  pub nonces : List (c.Scalar × c.Scalar)
  pub commitments : RwLock (HashMap (List (FrostCommitment c)))
  pub signature_shares : RwLock (HashMap c.Scalar)

-- The node and the channel that its `message_tx` writes to.
pub record World (c : Curve) : Type 0 where
  pub node : SigningNode c
  pub channel : Channel

module _ (c : Curve) where
  infixl 75 ◌⊙◌
  open c use {Scalar, zero_scalar, G1Projective, generator, ◌⊙◌, to_affine}

  -- `SigningNode::new`
  abbrev pub new : String → ℕ → KeyShare c → G1Projective → SigningNode c
  new id threshold key_share group_key = record {
    id = id;
    threshold = threshold;
    key_share = key_share;
    group_key = group_key;
    nonces = [];
    commitments = unlocked [];
    signature_shares = unlocked [];
  }

  -- `for _ in 0..count { d = random; e = random; nonces.push((d, e)); }`
  unfoldable pub push_nonces :
      (ℕ → Scalar) → ℕ → ℕ → List (Scalar × Scalar) → List (Scalar × Scalar)
  push_nonces rng drawn zero nonces = nonces
  push_nonces rng drawn (suc count) nonces =
      push_nonces rng (suc (suc drawn)) count (nonces ++ (rng drawn, rng (suc drawn)) ∷ [])

  unfoldable pub get_commitments : SigningNode c → List (FrostCommitment c)
  get_commitments node =
      map
        (λ nonce. record {
          d = to_affine (generator ⊙ nonce.0);
          e = to_affine (generator ⊙ nonce.1);
        })
        node.nonces

  abbrev pub this : Io (World c) (SigningNode c)
  this w = (ok w.node, w)

  abbrev pub on_node : (SigningNode c → SigningNode c) → Io (World c) (Unit {0})
  on_node f = modify (λ w. record w { node = f w.node })

  unfoldable pub generate_nonces : (ℕ → Scalar) → ℕ → Io (World c) (Unit {0})
  generate_nonces rng count =
      on_node (λ node. record node { nonces = push_nonces rng 0 count node.nonces })

  -- `self.message_tx.send(ChannelMessage::Broadcast { .. }).await?`
  unfoldable pub broadcast_to : String → Bytes → Io (World c) (Unit {0})
  broadcast_to topic bytes w =
      let (sent, channel) = send (broadcast topic bytes) w.channel in
      (sent, record w { channel = channel })

  -- A placeholder in the source.
  unfoldable pub generate_signature_share : Io (World c) Scalar
  generate_signature_share = pure zero_scalar

  unfoldable pub aggregate_signature_shares : Io (World c) Scalar
  aggregate_signature_shares = do
    node ← this
    shares ← wait (lock_read node.signature_shares)
    pure (accumulate c zero_scalar (values shares.value))

  -- The signature is computed and dropped; the read guard is alive while it is computed.
  unfoldable pub check_signature_completion : Io (World c) (Unit {0})
  unfolding aggregate_signature_shares
  check_signature_completion = do
    node ← this
    shares ← wait (lock_read node.signature_shares)
    on_node (λ node. record node { signature_shares = shares })
    when (leb node.threshold (length shares.value))
        (do signature ← aggregate_signature_shares; pure tt)
    on_node (λ node. record node { signature_shares = drop_read node.signature_shares })

  unfoldable pub handle_signature_share : String → Scalar → Io (World c) (Unit {0})
  unfolding check_signature_completion
  handle_signature_share sender share = do
    node ← this
    lock ← wait (lock_write node.signature_shares)
    on_node (λ node. record node {
      signature_shares = drop_write (record lock { value = insert sender share lock.value });
    })
    check_signature_completion

module _ (c : Curve) (json : Json (SigningMessage c)) where
  open c use {Scalar}

  unfoldable pub broadcast_message : SigningMessage c → Io (World c) (Unit {0})
  unfolding broadcast_to
  broadcast_message msg = do
    bytes ← or_fail (json.to_vec msg) "serde_json"
    broadcast_to c "signing" bytes

  -- One pair of nonces is drawn; the commitments to all pairs drawn so far are sent. The text to
  -- be signed is not used.
  unfoldable pub start_signing : (ℕ → Scalar) → Bytes → Io (World c) (Unit {0})
  unfolding generate_nonces broadcast_message
  start_signing rng message = do
    generate_nonces c rng 1
    node ← this c
    broadcast_message (commitment_share node.id (get_commitments c node))

  unfoldable pub check_commitments : Io (World c) (Unit {0})
  unfolding broadcast_message generate_signature_share
  check_commitments = do
    node ← this c
    commitments ← wait (lock_read node.commitments)
    on_node c (λ node. record node { commitments = commitments })
    guarded
        (λ (w : World c). record w {
          node = record w.node { commitments = drop_read w.node.commitments };
        })
        (when (leb node.threshold (length commitments.value)) (do
          share ← generate_signature_share c
          broadcast_message (signature_share node.id share)))

  unfoldable pub handle_commitment_share :
      String → List (FrostCommitment c) → Io (World c) (Unit {0})
  unfolding check_commitments
  handle_commitment_share sender commitments = do
    node ← this c
    lock ← wait (lock_write node.commitments)
    on_node c (λ node. record node {
      commitments = drop_write (record lock { value = insert sender commitments lock.value });
    })
    check_commitments

  unfoldable pub handle_message : SigningMessage c → Io (World c) (Unit {0})
  unfolding handle_commitment_share handle_signature_share
  handle_message (commitment_share sender commitments) = handle_commitment_share sender commitments
  handle_message (signature_share sender share) = handle_signature_share c sender share
