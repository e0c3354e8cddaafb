-- ===== src/Crypto.antt =====
-- The crates `bls12_381`, `ff` and `group`, as far as the node uses them: the scalar field, the
-- projective and the affine G1 points, and their documented laws. They are no code of this
-- repository, so they are a parameter of everything that computes with them.
pub mod Field
pub mod Points
pub mod Small
use Prim.Native.Nat.{ℕ, zero, suc}
use mathlib.Core.Path.{◌≡◌}
use mathlib.Core.Logic.{◌↔◌, ◌≢◌}
use mathlib.Core.Bool.{Bool, true}
use mathlib.Core.Option.{Option, none, some}

pub record Curve : Type 1 where
  -- `bls12_381::Scalar`
  pub Scalar : Type 0
  pub zero_scalar : Scalar
  pub one_scalar : Scalar
  pub ◌⊕◌ : Scalar → Scalar → Scalar
  pub ◌⊖◌ : Scalar → Scalar → Scalar
  pub ◌⊗◌ : Scalar → Scalar → Scalar
  -- `Scalar::from(u64)`, `pow` and `invert`
  pub from : ℕ → Scalar
  pub pow : Scalar → ℕ → Scalar
  pub invert : Scalar → Option Scalar
  -- `G1Projective` and `G1Affine`, with the conversions between them
  pub G1Projective : Type 0
  pub G1Affine : Type 0
  pub identity : G1Projective
  pub generator : G1Projective
  pub ◌⊞◌ : G1Projective → G1Projective → G1Projective
  pub ◌⊙◌ : G1Projective → Scalar → G1Projective
  pub point_eq : G1Projective → G1Projective → Bool
  pub to_affine : G1Projective → G1Affine
  pub to_projective : G1Affine → G1Projective
  -- The scalars are a commutative ring.
  pub add_assoc : (a b d : Scalar) → ◌⊕◌ (◌⊕◌ a b) d ≡ ◌⊕◌ a (◌⊕◌ b d)
  pub add_comm : (a b : Scalar) → ◌⊕◌ a b ≡ ◌⊕◌ b a
  pub zero-add : (a : Scalar) → ◌⊕◌ zero_scalar a ≡ a
  pub sub-add : (a b : Scalar) → ◌⊕◌ (◌⊖◌ a b) b ≡ a
  pub add-sub : (a b : Scalar) → ◌⊖◌ (◌⊕◌ a b) b ≡ a
  pub mul_assoc : (a b d : Scalar) → ◌⊗◌ (◌⊗◌ a b) d ≡ ◌⊗◌ a (◌⊗◌ b d)
  pub mul_comm : (a b : Scalar) → ◌⊗◌ a b ≡ ◌⊗◌ b a
  pub one-mul : (a : Scalar) → ◌⊗◌ one_scalar a ≡ a
  pub mul-add : (a b d : Scalar) → ◌⊗◌ a (◌⊕◌ b d) ≡ ◌⊕◌ (◌⊗◌ a b) (◌⊗◌ a d)
  -- Every scalar but zero has an inverse.
  pub invert_zero : invert zero_scalar ≡ none
  pub invert_ne : (a : Scalar) → a ≢ zero_scalar → invert a ≢ none
  pub invert_some : (a b : Scalar) → invert a ≡ some b → ◌⊗◌ a b ≡ one_scalar
  pub pow_zero : (a : Scalar) → pow a zero ≡ one_scalar
  pub pow_suc : (a : Scalar) (n : ℕ) → pow a (suc n) ≡ ◌⊗◌ a (pow a n)
  -- The points are a group on which the scalars act.
  pub point_assoc : (p q r : G1Projective) → ◌⊞◌ (◌⊞◌ p q) r ≡ ◌⊞◌ p (◌⊞◌ q r)
  pub point_comm : (p q : G1Projective) → ◌⊞◌ p q ≡ ◌⊞◌ q p
  pub identity-add : (p : G1Projective) → ◌⊞◌ identity p ≡ p
  pub scale-zero : (p : G1Projective) → ◌⊙◌ p zero_scalar ≡ identity
  pub scale-add : (p : G1Projective) (a b : Scalar) → ◌⊙◌ p (◌⊕◌ a b) ≡ ◌⊞◌ (◌⊙◌ p a) (◌⊙◌ p b)
  pub scale-mul : (p : G1Projective) (a b : Scalar) → ◌⊙◌ (◌⊙◌ p a) b ≡ ◌⊙◌ p (◌⊗◌ a b)
  -- A multiple of the generator determines its scalar.
  pub generator_injective : (a b : Scalar) → ◌⊙◌ generator a ≡ ◌⊙◌ generator b → a ≡ b
  pub point_eq_iff : (p q : G1Projective) → (point_eq p q ≡ true) ↔ (p ≡ q)
  pub to_projective-to_affine : (p : G1Projective) → to_projective (to_affine p) ≡ p
