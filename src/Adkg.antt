-- ===== src/Adkg.antt =====
-- src/adkg_layer.bkp.rs: a node of the asynchronous distributed key generation. Every dealer
-- publishes the shares of its polynomial with commitments to the coefficients; a node verifies
-- its share, stores it and acknowledges it; after `t` acknowledgements it adds its shares up.
-- A call of `Scalar::random(&mut self.rng)` is the next value of the argument `rng`. The locks are left
-- out: a write guard ends with its statement, the three read guards of `check_completion` live to
-- its end, on three different locks, and that a task waits for one of them is not expressed.
pub mod Polynomial
pub mod Feldman
pub mod Weights
pub mod Interpolation
pub mod Reconstruct
pub mod Completion
pub mod Acks
pub mod Protocol
pub mod Delivery
pub mod Start
pub mod Agreement
pub mod Backed
pub mod Received
pub mod UnitTests
pub mod Holding
pub mod Ceremony
pub mod Shortfall
pub mod Keeps
pub mod Runs
use mpc_node.Common.{
  ℕ, zero, suc, ◌-◌, String, Bool, true, false, Option, none, some, List, [], ◌∷◌, ◌++◌, map,
  flatten, length, get_elem?, keep, range_from, str_eq, if◌then◌else◌, ◌==◌, ltb, leb, ◌||◌, ◌&&◌,
  Outcome, ok, panicked, Io, pure, get, modify, or_fail, unwrap, when, lift, ◌>>=◌, ◌>>◌, not,
}
use mpc_node.Common.HashMap.{HashMap, lookup, insert, values}
use mpc_node.Crypto.{Curve}
use mpc_node.Crypto.Points.{accumulate}
use mpc_node.Wire.{Json, Gossip}

pub data AdkgMessage (c : Curve) : Type 0 where
  share_proposal : String → List c.Scalar → List c.G1Affine → AdkgMessage c
  share_ack : String → String → Bool → AdkgMessage c

pub record AdkgNode (c : Curve) : Type 0 where
  pub id : String
  pub idx : ℕ
  pub n : ℕ
  pub t : ℕ
  pub secret_key_share : Option c.Scalar
  pub public_key : Option c.G1Projective
  pub commitments : HashMap (List c.G1Affine)
  pub shares : HashMap c.Scalar
  pub acks : HashMap (List (String × Bool))

-- The node and the swarm that its methods are lent.
pub record World (c : Curve) (g : Gossip) : Type 0 where
  pub node : AdkgNode c
  pub swarm : g.Swarm

module _ (c : Curve) where
  infixl 65 ◌⊕◌ ◌⊖◌ ◌⊞◌
  infixl 70 ◌⊗◌
  infixl 75 ◌⊙◌
  open c use {
    Scalar, zero_scalar, ◌⊕◌, ◌⊖◌, ◌⊗◌, from, pow, invert, G1Projective, G1Affine, identity,
    generator, ◌⊞◌, ◌⊙◌, point_eq, to_affine, to_projective,
  }

  -- `ADKGNode::new`
  abbrev pub new : String → ℕ → ℕ → ℕ → AdkgNode c
  new id n t idx = record {
    id = id;
    idx = idx;
    n = n;
    t = t;
    secret_key_share = none;
    public_key = none;
    commitments = [];
    shares = [];
    acks = [];
  }

  -- One coefficient, then one for each of `1..=degree`; the first one is the secret.
  unfoldable pub generate_polynomial : (ℕ → Scalar) → ℕ → List Scalar × Scalar
  generate_polynomial rng degree = (rng 0 ∷ map rng (range_from 1 degree), rng 0)

  unfoldable pub evaluate_terms : Scalar → ℕ → Scalar → List Scalar → Scalar
  evaluate_terms x j result [] = result
  evaluate_terms x j result (coeff ∷ coeffs) =
      evaluate_terms x (suc j) (result ⊕ coeff ⊗ pow x j) coeffs

  unfoldable pub evaluate_polynomial : List Scalar → ℕ → Scalar
  evaluate_polynomial coeffs i = evaluate_terms (from i) 0 zero_scalar coeffs

  unfoldable pub generate_commitments : List Scalar → List G1Affine
  generate_commitments coeffs = map (λ coeff. to_affine (generator ⊙ coeff)) coeffs

  unfoldable pub commitment_terms : Scalar → ℕ → G1Projective → List G1Affine → G1Projective
  commitment_terms x j commitment_sum [] = commitment_sum
  commitment_terms x j commitment_sum (commitment ∷ rest) =
      commitment_terms x (suc j) (commitment_sum ⊞ to_projective commitment ⊙ pow x j) rest

  -- An index out of range would panic.
  unfoldable pub verify_commitments :
      AdkgNode c → String → List Scalar → List G1Affine → Outcome Bool
  verify_commitments node sender_id shares commitments =
      if node.idx == 0 || ltb (length shares) node.idx
      then ok false
      else elim (get_elem? shares (node.idx - 1)) [
        | none ↦ panicked
        | some share ↦
            ok (
              point_eq (commitment_terms (from node.idx) 0 identity commitments)
                (generator ⊙ share))
      ]

  -- `acks.values().flatten().filter(|(_, valid)| *valid).count()`
  unfoldable pub count_valid : HashMap (List (String × Bool)) → ℕ
  count_valid acks = length (keep (λ ack. ack.1) (flatten (values acks)))

  -- `acks.entry(sender_id).or_insert_with(Vec::new).push(ack)`
  unfoldable pub push_ack :
      String → String × Bool → HashMap (List (String × Bool)) → HashMap (List (String × Bool))
  push_ack sender_id ack acks =
      insert sender_id ((elim (lookup sender_id acks) [ none ↦ [] | some old ↦ old ]) ++ ack ∷ [])
        acks

  -- `for comms in commitments.values() { public_key += comms[0].into(); }`
  unfoldable pub add_first_commitments :
      {S : Type 0} → G1Projective → List (List G1Affine) → Io S G1Projective
  add_first_commitments public_key [] = pure public_key
  add_first_commitments public_key (comms ∷ rest) = do
    first ← unwrap (get_elem? comms 0)
    add_first_commitments (public_key ⊞ to_projective first) rest

  -- The factors of one term, for `shares.iter().filter(|(j, _)| j != i)`. `none` is the panic of
  -- `invert().unwrap()` at two indices that are the same scalar.
  unfoldable pub lagrange_term : ℕ → Scalar → List (ℕ × Scalar) → Option Scalar
  lagrange_term i term [] = some term
  lagrange_term i term ((j, share) ∷ rest) = elim (j == i) [
    | true ↦ lagrange_term i term rest
    | false ↦ elim (invert (from j ⊖ from i)) [
      | none ↦ none
      | some inverse ↦ lagrange_term i (term ⊗ (from j ⊗ inverse)) rest
    ]
  ]

  unfoldable pub lagrange_sum : List (ℕ × Scalar) → Scalar → List (ℕ × Scalar) → Option Scalar
  lagrange_sum shares secret [] = some secret
  lagrange_sum shares secret ((i, share) ∷ rest) = elim (lagrange_term i share shares) [
    | none ↦ none
    | some term ↦ lagrange_sum shares (secret ⊕ term) rest
  ]

  unfoldable pub reconstruct_secret : List (ℕ × Scalar) → Option Scalar
  reconstruct_secret shares = lagrange_sum shares zero_scalar shares

module _ (c : Curve) (g : Gossip) (json : Json (AdkgMessage c)) where
  abbrev this : Io (World c g) (AdkgNode c)
  this w = (ok w.node, w)

  abbrev on_node : (AdkgNode c → AdkgNode c) → Io (World c g) (Unit {0})
  on_node f = modify (λ w. record w { node = f w.node })

  unfoldable pub publish : AdkgMessage c → String → Io (World c g) (Unit {0})
  publish msg error = do
    msg_bytes ← or_fail (json.to_vec msg) "serde_json"
    w ← get
    swarm ← or_fail (g.publish w.swarm "/adkg/1.0.0" msg_bytes) error
    modify (λ w. record w { swarm = swarm })

  -- The shares are evaluated at `1..=n`. The dealer keeps its commitments once the proposal is out.
  unfoldable pub start_adkg : (ℕ → c.Scalar) → Io (World c g) (Unit {0})
  unfolding publish
  start_adkg rng = do
    node ← this
    let polynomial = generate_polynomial c rng node.t
    let commitments = generate_commitments c polynomial.0
    let shares = map (evaluate_polynomial c polynomial.0) (range_from 1 node.n)
    publish (share_proposal node.id shares commitments) "Failed to publish message"
    on_node (λ node. record node { commitments = insert node.id commitments node.commitments })

  unfoldable pub store_share : String → List c.Scalar → List c.G1Affine → Io (World c g) (Unit {0})
  store_share sender_id shares commitments = do
    node ← this
    when (ltb 0 node.idx && leb node.idx (length shares)) (do
      share ← unwrap (get_elem? shares (node.idx - 1))
      on_node (λ node. record node { shares = insert sender_id share node.shares })
      on_node (λ node. record node { commitments = insert sender_id commitments node.commitments }))

  unfoldable pub check_completion : Io (World c g) (Unit {0})
  check_completion = do
    node ← this
    when (leb node.t (count_valid c node.acks)) (do
      on_node (λ node. record node {
        secret_key_share = some (accumulate c c.zero_scalar (values node.shares));
      })
      public_key ← add_first_commitments c c.identity (values node.commitments)
      on_node (λ node. record node { public_key = some public_key }))

  unfoldable pub handle_message : AdkgMessage c → Io (World c g) (Unit {0})
  unfolding publish store_share check_completion
  handle_message (share_proposal sender_id shares commitments) = do
    node ← this
    verified ← lift (verify_commitments c node sender_id shares commitments)
    when verified (do
      store_share sender_id shares commitments
      publish (share_ack node.id sender_id true) "Failed to publish ACK")
  handle_message (share_ack sender_id receiver_id valid) = do
    node ← this
    when (str_eq receiver_id node.id) (do
      on_node (λ node. record node { acks = push_ack c sender_id (sender_id, valid) node.acks })
      check_completion)
