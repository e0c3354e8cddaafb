-- ===== src/Frost.antt =====
-- src/frost/mod.rs: the FROST signer and its stock of nonces. A call of `Scalar::random(&mut rng)`
-- is the next value of the argument `rng`.
pub mod Nonces
use mpc_node.Common.{ℕ, zero, suc, String, Option, none, some, List, [], ◌∷◌, ◌++◌, map}
use mpc_node.Common.HashMap.{HashMap}
use mpc_node.Crypto.{Curve}

pub record Commitment (c : Curve) : Type 0 where
  pub d : c.G1Affine
  pub e : c.G1Affine

pub record FrostSigner (c : Curve) : Type 0 where
  pub id : String
  pub secret_share : c.Scalar
  pub public_key : c.G1Projective
  pub nonces : List (c.Scalar × c.Scalar)
  pub commitments : HashMap (List (Commitment c))

module _ (c : Curve) where
  infixl 75 ◌⊙◌
  open c use {Scalar, G1Projective, generator, ◌⊙◌, to_affine}

  -- `FrostSigner::new`
  abbrev pub new : String → Scalar → G1Projective → FrostSigner c
  new id secret_share public_key = record {
    id = id;
    secret_share = secret_share;
    public_key = public_key;
    nonces = [];
    commitments = [];
  }

  unfoldable pub push_nonces :
      (ℕ → Scalar) → ℕ → ℕ → List (Scalar × Scalar) → List (Scalar × Scalar)
  push_nonces rng drawn zero nonces = nonces
  push_nonces rng drawn (suc count) nonces =
      push_nonces rng (suc (suc drawn)) count (nonces ++ (rng drawn, rng (suc drawn)) ∷ [])

  unfoldable pub generate_nonces : (ℕ → Scalar) → ℕ → FrostSigner c → FrostSigner c
  generate_nonces rng count signer = record signer {
    nonces = push_nonces rng 0 count signer.nonces;
  }

  unfoldable pub get_commitments : FrostSigner c → List (Commitment c)
  get_commitments signer =
      map
        (λ nonce. record {
          d = to_affine (generator ⊙ nonce.0);
          e = to_affine (generator ⊙ nonce.1);
        })
        signer.nonces

  sign_with : FrostSigner c → List (Scalar × Scalar) → Option Scalar × FrostSigner c
  sign_with signer [] = (none, signer)
  sign_with signer (nonce ∷ rest) = (some signer.secret_share, record signer { nonces = rest })

  -- The text and the participants are not used; the first pair of nonces is removed.
  unfoldable pub sign : List ℕ → List String → FrostSigner c → Option Scalar × FrostSigner c
  unfolding sign_with
  sign message participants signer = sign_with signer signer.nonces
