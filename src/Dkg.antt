-- ===== src/Dkg.antt =====
-- src/dkg/mod.rs: the DKG node that the network layer drives. A call of `Scalar::random(&mut rng)`
-- is the next value of the argument `rng`.
pub mod Shares
pub mod Handlers
pub mod Store
use mpc_node.Common.{
  ℕ, zero, suc, ◌+◌, ◌-◌, ◌*◌, ◌^◌, ◌≡◌, String, Bool, true, false, ◌&&◌, Option, none, some, List,
  [], ◌∷◌, ◌++◌, map, length, find, every, range_from, ltb, leb, ◌==◌, if◌then◌else◌, Outcome, ok,
  Io, pure, modify, or_fail, when, wait, ◌>>=◌, ◌>>◌,
}
use mpc_node.Common.HashMap.{HashMap, lookup, insert, values}
use mpc_node.Common.RwLock.{RwLock, unlocked, lock_write, lock_read, drop_write, drop_read}
use mpc_node.Common.Parse.{parse_usize, usize_max}
use mpc_node.Crypto.{Curve}
use mpc_node.Crypto.Points.{accumulate_points}
use mpc_node.Wire.{Json, Bytes}
use mpc_node.Channel.{Channel, send}
use mpc_node.Types.{
  ChannelMessage, KeyShare, DkgMessage, DkgStatus, GossipsubMessage, broadcast, share_distribution,
  share_validation, dkg,
}
use mpc_node.Types
use mpc_node.Adkg.{evaluate_polynomial}

-- `parse().unwrap_or(usize::MAX)`
unfoldable pub own_index : String → ℕ
unfolding parse_usize
own_index id = elim (parse_usize id) [ none ↦ usize_max | some i ↦ i ]

abbrev pub msg_topic_dkg : String
msg_topic_dkg = "topic-dkg"

pub record DkgNode (c : Curve) : Type 0 where
  pub id : String
  pub status : DkgStatus
  pub threshold : ℕ
  pub total_nodes : ℕ
  pub shares : RwLock (HashMap (KeyShare c))
  pub commitments : RwLock (HashMap (List c.G1Affine))
  pub validations : RwLock (HashMap (List Bool))

-- The node and the channel that its `message_tx` writes to.
pub record World (c : Curve) : Type 0 where
  pub node : DkgNode c
  pub channel : Channel

module _ (c : Curve) where
  infixl 65 ◌⊞◌
  infixl 75 ◌⊙◌
  open c use {Scalar, G1Projective, G1Affine, identity, generator, ◌⊞◌, ◌⊙◌, to_affine}

  -- `DKGNode::new`
  abbrev pub new : String → ℕ → ℕ → DkgNode c
  new id threshold total_nodes = record {
    id = id;
    status = DkgStatus.new;
    threshold = threshold;
    total_nodes = total_nodes;
    shares = unlocked [];
    commitments = unlocked [];
    validations = unlocked [];
  }

  unfoldable pub get_status : DkgNode c → DkgStatus
  get_status node = node.status

  -- One coefficient for each of `0..=threshold`.
  unfoldable pub generate_polynomial : DkgNode c → (ℕ → Scalar) → List Scalar
  generate_polynomial node rng = map rng (range_from 0 (node.threshold + 1))

  unfoldable pub generate_shares : DkgNode c → List Scalar → List (KeyShare c)
  generate_shares node polynomial =
      map (λ i. record { index = i; value = evaluate_polynomial c polynomial i })
        (range_from 1 node.total_nodes)

  unfoldable pub generate_commitments : List Scalar → List G1Affine
  generate_commitments polynomial = map (λ coeff. to_affine (generator ⊙ coeff)) polynomial

  -- A placeholder in the source, both of them.
  unfoldable pub verify_share : DkgNode c → Scalar → List G1Affine → Bool
  verify_share node share commitments = true

  unfoldable pub verify_shares : DkgNode c → List (KeyShare c) → List G1Affine → Bool
  verify_shares node shares commitments = true

  abbrev pub this : Io (World c) (DkgNode c)
  this w = (ok w.node, w)

  abbrev pub on_node : (DkgNode c → DkgNode c) → Io (World c) (Unit {0})
  on_node f = modify (λ w. record w { node = f w.node })

  -- `self.message_tx.send(ChannelMessage::Broadcast { .. }).await?`
  unfoldable pub broadcast_to : String → Bytes → Io (World c) (Unit {0})
  broadcast_to topic bytes w =
      let (sent, channel) = send (broadcast topic bytes) w.channel in
      (sent, record w { channel = channel })

  -- The sum of generator multiples of the shares that were received.
  unfoldable pub generate_group_key : Io (World c) G1Projective
  generate_group_key = do
    node ← this
    shares ← wait (lock_read node.shares)
    pure (
        accumulate_points c identity (map (λ share. generator ⊙ share.value) (values shares.value)))

  -- `validations.values().all(|v| v.len() >= threshold) && shares.len() >= threshold`
  unfoldable pub is_complete : ℕ → HashMap (List Bool) → HashMap (KeyShare c) → Bool
  is_complete threshold validations shares =
      every (λ v. leb threshold (length v)) (values validations) && leb threshold (length shares)

  -- Both guards live to the end; the group key is computed and dropped.
  unfoldable pub check_completion : Io (World c) (Unit {0})
  unfolding is_complete generate_group_key
  check_completion = do
    node ← this
    validations ← wait (lock_read node.validations)
    on_node (λ node. record node { validations = validations })
    shares ← wait (lock_read node.shares)
    on_node (λ node. record node { shares = shares })
    when (is_complete node.threshold validations.value shares.value)
        (do group_key ← generate_group_key; pure tt)
    on_node (λ node. record node {
      shares = drop_read node.shares;
      validations = drop_read node.validations;
    })

  -- `validations.entry(to).or_insert_with(Vec::new).push(is_valid)`
  unfoldable pub push_validation : String → Bool → HashMap (List Bool) → HashMap (List Bool)
  push_validation to is_valid validations =
      insert to ((elim (lookup to validations) [ none ↦ [] | some old ↦ old ]) ++ is_valid ∷ [])
        validations

  -- The write guard on the validations is alive while the completion is checked.
  unfoldable pub handle_share_validation : String → String → Bool → Io (World c) (Unit {0})
  unfolding check_completion
  handle_share_validation sender to is_valid = do
    node ← this
    validations ← wait (lock_write node.validations)
    on_node (λ node. record node {
      validations = record validations { value = push_validation to is_valid validations.value };
    })
    check_completion
    on_node (λ node. record node { validations = drop_write node.validations })

module _ (c : Curve) (json : Json (GossipsubMessage c)) where
  open c use {Scalar, G1Affine}

  unfoldable pub broadcast_message : DkgMessage c → Io (World c) (Unit {0})
  unfolding broadcast_to
  broadcast_message msg = do
    msg_bytes ← or_fail (json.to_vec (dkg msg)) "serde_json"
    broadcast_to c msg_topic_dkg msg_bytes

  unfoldable pub broadcast_shares : List (KeyShare c) → List G1Affine → Io (World c) (Unit {0})
  unfolding broadcast_message
  broadcast_shares shares commitments = do
    node ← this c
    broadcast_message (share_distribution node.id shares commitments)

  unfoldable pub start_dkg : (ℕ → Scalar) → Io (World c) (Unit {0})
  unfolding broadcast_shares
  start_dkg rng = do
    node ← this c
    let polynomial = generate_polynomial c node rng
    let shares = generate_shares c node polynomial
    let commitments = generate_commitments c polynomial
    on_node c (λ node. record node { status = DkgStatus.started })
    broadcast_shares shares commitments

  -- `self.shares.write().await.insert(..)`: a guard that ends with its statement.
  insert_share : String → KeyShare c → Io (World c) (Unit {0})
  insert_share sender share = do
    node ← this c
    lock ← wait (lock_write node.shares)
    on_node c (λ node. record node {
      shares = drop_write (record lock { value = insert sender share lock.value });
    })

  insert_commitments : String → List G1Affine → Io (World c) (Unit {0})
  insert_commitments sender commitments = do
    node ← this c
    lock ← wait (lock_write node.commitments)
    on_node c (λ node. record node {
      commitments = drop_write (record lock { value = insert sender commitments lock.value });
    })

  store_share : String → Option (KeyShare c) → List G1Affine → Io (World c) (Unit {0})
  unfolding insert_share insert_commitments broadcast_message
  store_share sender none commitments = pure tt
  store_share sender (some share) commitments = do
    node ← this c
    insert_share sender share
    insert_commitments sender commitments
    broadcast_message (share_validation node.id sender true)

  unfoldable pub handle_share_distribution :
      String → List (KeyShare c) → List G1Affine → Io (World c) (Unit {0})
  unfolding store_share
  handle_share_distribution sender shares commitments = do
    node ← this c
    when (verify_shares c node shares commitments)
        (store_share sender (find (λ s. s.index == own_index node.id) shares) commitments)

  unfoldable pub handle_message : DkgMessage c → Io (World c) (Unit {0})
  unfolding handle_share_distribution handle_share_validation
  handle_message (share_distribution sender shares commitments) =
      handle_share_distribution sender shares commitments
  handle_message (share_validation sender to is_valid) =
      handle_share_validation c sender to is_valid
