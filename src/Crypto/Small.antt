-- ===== src/Crypto/Small.antt =====
-- The integers modulo 7 as scalars and, additively, as points: a value of `Curve`, on which the
-- model runs and the theorems are applied. It shows that the laws asked of the crates can hold.
use Prim.Native.Nat.{ℕ, zero, suc, ◌+◌, ◌-◌, ◌*◌, ◌%◌, ◌<◌}
use mathlib.Core.Path.{◌≡◌, refl, ap}
use mathlib.Core.Logic.{◌↔◌, ◌≢◌}
use mathlib.Core.Bool.{Bool, true, false, ◌&&◌}
use mathlib.Core.Option.{Option, none, some}
use mathlib.Core.HLevel.{Σ_prop_path}
use native.Mathlib.Omega.{arith}
use native.Mathlib.Bridge.{le_prop}
use mpc_node.Common.{◌==◌, if◌then◌else◌, ==_iff}
use mpc_node.Crypto.{Curve}

abbrev pub Residue : Type 0
Residue = (n : ℕ) × (n < 7)

pub reduce_lt : (n : ℕ) → n % 7 < 7
reduce_lt n = omega arith

abbrev pub residue : ℕ → Residue
residue n = (n % 7, reduce_lt n)

pub Residue-path : (a b : Residue) → a.0 ≡ b.0 → a ≡ b
Residue-path a b p = Σ_prop_path (λ n. le_prop) p

abbrev pub add : Residue → Residue → Residue
add a b = residue (a.0 + b.0)

abbrev pub sub : Residue → Residue → Residue
sub a b = residue (a.0 + 7 - b.0)

abbrev pub mul : Residue → Residue → Residue
mul a b = residue (a.0 * b.0)

abbrev pub power : Residue → ℕ → Residue
power a zero = residue 1
power a (suc n) = mul a (power a n)

abbrev pub inverse : Residue → Option Residue
inverse a = if a.0 == 0 then none else some (residue (a.0 * a.0 * a.0 * a.0 * a.0))

abbrev pub same : Residue → Residue → Bool
same a b = a.0 == b.0

-- Whether a test passes at every number below a bound, and at the numbers that the bound admits.
passes : (ℕ → Bool) → ℕ → Bool
passes test zero = true
passes test (suc bound) = passes test bound && test bound

passes_at : (test : ℕ → Bool) (bound i : ℕ) → i < bound → passes test bound ≡ true → test i ≡ true
unfolding passes
passes_at test zero i below h = absurd (omega arith)
passes_at test (suc bound) i below h = ground (arith, passes_at test bound i)

-- An equation between two numbers, checked at all values of its three variables.
agree : (ℕ → ℕ → ℕ → ℕ) → (ℕ → ℕ → ℕ → ℕ) → Bool
unfolding passes
agree f g = passes (λ x. passes (λ y. passes (λ z. f x y z == g x y z) 7) 7) 7

by_check :
    (f g : ℕ → ℕ → ℕ → ℕ) → agree f g ≡ true → (a b d : Residue) → f a.0 b.0 d.0 ≡ g a.0 b.0 d.0
unfolding agree
by_check f g h a b d = (==_iff _ _).0 (
    passes_at (λ x. f a.0 b.0 x == g a.0 b.0 x) 7 d.0 d.1
      (passes_at (λ x. passes (λ z. f a.0 x z == g a.0 x z) 7) 7 b.0 b.1
        (passes_at (λ x. passes (λ y. passes (λ z. f x y z == g x y z) 7) 7) 7 a.0 a.1 h)))

pub mul_assoc : (a b d : Residue) → mul (mul a b) d ≡ mul a (mul b d)
unfolding agree
mul_assoc a b d =
    Residue-path _ _
      (by_check (λ x y z. x * y % 7 * z % 7) (λ x y z. x * (y * z % 7) % 7) refl a b d)

pub mul_comm : (a b : Residue) → mul a b ≡ mul b a
unfolding agree
mul_comm a b = Residue-path _ _ (by_check (λ x y z. x * y % 7) (λ x y z. y * x % 7) refl a b a)

pub mul-add : (a b d : Residue) → mul a (add b d) ≡ add (mul a b) (mul a d)
unfolding agree
mul-add a b d =
    Residue-path _ _
      (by_check (λ x y z. x * ((y + z) % 7) % 7) (λ x y z. (x * y % 7 + x * z % 7) % 7) refl a b d)

pub add_assoc : (a b d : Residue) → add (add a b) d ≡ add a (add b d)
add_assoc a b d = Residue-path _ _ (omega arith)

pub add_comm : (a b : Residue) → add a b ≡ add b a
add_comm a b = Residue-path _ _ (omega arith)

pub zero-add : (a : Residue) → add (residue 0) a ≡ a
zero-add a = Residue-path _ _ (let h = a.1 in omega arith)

pub sub-add : (a b : Residue) → add (sub a b) b ≡ a
sub-add a b = Residue-path _ _ (let h = a.1 in let k = b.1 in omega arith)

pub add-sub : (a b : Residue) → sub (add a b) b ≡ a
add-sub a b = Residue-path _ _ (let h = a.1 in let k = b.1 in omega arith)

pub one-mul : (a : Residue) → mul (residue 1) a ≡ a
one-mul a = Residue-path _ _ (let h = a.1 in omega arith)

pub mul-zero : (a : Residue) → mul a (residue 0) ≡ residue 0
mul-zero a = Residue-path _ _ (omega arith)

nonzero : (a : Residue) → a ≢ residue 0 → (a.0 == 0) ≡ false
nonzero a h = split (a.0 == 0) refl
  where
    split : (t : Bool) → (a.0 == 0) ≡ t → (a.0 == 0) ≡ false
    split true e = absurd (h (Residue-path a (residue 0) ((==_iff a.0 0).0 e)))
    split false e = e

pub inverse_ne : (a : Residue) → a ≢ residue 0 → inverse a ≢ none
inverse_ne a h e = cc (rw (nonzero a h) at e)

fermat : (a : Residue) → a.0 ≢ 0 → a.0 * (a.0 * a.0 * a.0 * a.0 * a.0 % 7) % 7 ≡ 1
unfolding agree
fermat a h = ground (arith, table)
  where
    table : a.0 * (a.0 * a.0 * a.0 * a.0 * a.0 % 7) % 7 ≡ (if a.0 == 0 then 0 else 1)
    table =
        by_check (λ x y z. x * (x * x * x * x * x % 7) % 7) (λ x y z. if x == 0 then 0 else 1) refl
          a a a

pub inverse-some : (a b : Residue) → inverse a ≡ some b → mul a b ≡ residue 1
inverse-some a b h = split (a.0 == 0) refl
  where
    split : (t : Bool) → (a.0 == 0) ≡ t → mul a b ≡ residue 1
    split true e = cc (rw e at h)
    split false e =
        let value : some (residue (a.0 * a.0 * a.0 * a.0 * a.0)) ≡ some b = rw e at h in
        rw (← some_value value) (Residue-path _ _ (fermat a (ground arith)))
      where
        some_value : {x y : Residue} → some x ≡ some y → x ≡ y
        some_value p = cc

pub same_iff : (a b : Residue) → (same a b ≡ true) ↔ (a ≡ b)
same_iff a b = (
  λ h. Residue-path a b ((==_iff a.0 b.0).0 h),
  λ h. (==_iff a.0 b.0).1 (ap (λ (r : Residue). r.0) h),
)

pub one_injective : (a b : Residue) → mul (residue 1) a ≡ mul (residue 1) b → a ≡ b
one_injective a b h = Residue-path a b (
    let p : 1 % 7 * a.0 % 7 ≡ 1 % 7 * b.0 % 7 = ap (λ (r : Residue). r.0) h in
    let x = a.1 in let y = b.1 in omega arith)

abbrev pub small : Curve
small = record {
  Scalar = Residue;
  zero_scalar = residue 0;
  one_scalar = residue 1;
  ◌⊕◌ = add;
  ◌⊖◌ = sub;
  ◌⊗◌ = mul;
  from = residue;
  pow = power;
  invert = inverse;
  G1Projective = Residue;
  G1Affine = Residue;
  identity = residue 0;
  generator = residue 1;
  ◌⊞◌ = add;
  ◌⊙◌ = mul;
  point_eq = same;
  to_affine = λ p. p;
  to_projective = λ p. p;
  add_assoc = add_assoc;
  add_comm = add_comm;
  zero-add = zero-add;
  sub-add = sub-add;
  add-sub = add-sub;
  mul_assoc = mul_assoc;
  mul_comm = mul_comm;
  one-mul = one-mul;
  mul-add = mul-add;
  invert_zero = refl;
  invert_ne = inverse_ne;
  invert_some = inverse-some;
  pow_zero = λ a. refl;
  pow_suc = λ a n. refl;
  point_assoc = add_assoc;
  point_comm = add_comm;
  identity-add = zero-add;
  scale-zero = mul-zero;
  scale-add = mul-add;
  scale-mul = mul_assoc;
  generator_injective = one_injective;
  point_eq_iff = same_iff;
  to_projective-to_affine = λ p. refl;
}
