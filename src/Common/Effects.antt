-- ===== src/Common/Effects.antt =====
-- What an async method of the node does: it changes the state that it is given, and it returns,
-- fails with an `Err`, panics, or waits for ever (on a lock that its own task holds, or on a full
-- channel that only its own task empties). The state after a failure is part of the result.
use Prim.Native.String.{String}
use native.Mathlib.Omega.{arith}
use mathlib.Core.Path.{◌≡◌, refl, ap}
use mathlib.Core.Logic.{◌≢◌, ◌⊎◌, inl, inr}
use mathlib.Core.Bool.{Bool, true, false}
use mathlib.Core.Option.{Option, none, some}

pub data Outcome {ℓ} (A : Type ℓ) : Type ℓ where
  ok : A → Outcome A
  err : String → Outcome A
  panicked : Outcome A
  blocked : Outcome A

abbrev pub Io {ℓ} : Type ℓ → Type ℓ → Type ℓ
Io S A = S → Outcome A × S

module _ {ℓ} {S : Type ℓ} where
  abbrev pub pure : {A : Type ℓ} → A → Io S A
  pure a s = (ok a, s)

  abbrev pub fail : {A : Type ℓ} → String → Io S A
  fail e s = (err e, s)

  abbrev pub and_then : {A B : Type ℓ} → Outcome A × S → (A → Io S B) → Outcome B × S
  and_then (ok a, s) f = f a s
  and_then (err e, s) f = (err e, s)
  and_then (panicked, s) f = (panicked, s)
  and_then (blocked, s) f = (blocked, s)

  abbrev pub get : Io S S
  get s = (ok s, s)

  -- `o.ok_or(e)?`
  abbrev pub or_fail : {A : Type ℓ} → Option A → String → Io S A
  or_fail none e s = (err e, s)
  or_fail (some a) e s = (ok a, s)

  -- `o.unwrap()`, and an index that must be in range.
  abbrev pub unwrap : {A : Type ℓ} → Option A → Io S A
  unwrap none s = (panicked, s)
  unwrap (some a) s = (ok a, s)

infixl 5 ◌>>=◌ ◌>>◌
abbrev pub ◌>>=◌ {ℓ} : {S A B : Type ℓ} → Io S A → (A → Io S B) → Io S B
◌>>=◌ m f s = and_then (m s) f

abbrev pub ◌>>◌ {ℓ} : {S A B : Type ℓ} → Io S A → Io S B → Io S B
m >> k = m >>= λ _. k

abbrev pub modify : {S : Type 0} → (S → S) → Io S (Unit {0})
modify f s = (ok tt, f s)

-- A body under a guard, which is dropped when the body returns, fails or panics, and which is alive
-- as long as the body waits.
abbrev pub release : {S A : Type 0} → (S → S) → Outcome A × S → Outcome A × S
release drop (ok a, s) = (ok a, drop s)
release drop (err e, s) = (err e, drop s)
release drop (panicked, s) = (panicked, drop s)
release drop (blocked, s) = (blocked, s)

abbrev pub guarded : {S A : Type 0} → (S → S) → Io S A → Io S A
guarded drop body s = release drop (body s)

-- An `if` with no `else`.
abbrev pub when : {S : Type 0} → Bool → Io S (Unit {0}) → Io S (Unit {0})
when true body = body
when false body = pure tt

-- A value computed by a function that may panic.
abbrev pub lift {ℓ} : {S A : Type ℓ} → Outcome A → Io S A
lift r s = (r, s)

-- `lock.read().await` and the like: what is acquired, or waiting for ever.
abbrev pub wait {ℓ} : {S A : Type ℓ} → Option A → Io S A
wait none s = (blocked, s)
wait (some a) s = (ok a, s)

-- To get through, the first part must return.
pub and_then-ok {ℓ} :
    {S A B : Type ℓ} (r : Outcome A × S) (f : A → Io S B) {y : B}
    → (and_then r f).0 ≡ ok y
    → (x : A) × (r.0 ≡ ok x) × (and_then r f ≡ f x r.1)
and_then-ok (ok x, s) f h = (x, refl, refl)
and_then-ok (err e, s) f h = absurd (ground arith)
and_then-ok (panicked, s) f h = absurd (ground arith)
and_then-ok (blocked, s) f h = absurd (ground arith)

-- An outcome is a value, or there is none, and then nothing that follows is done.
pub Outcome-cases {ℓ} : {A : Type ℓ} (r : Outcome A) → ((x : A) × (r ≡ ok x)) ⊎ ((x : A) → r ≢ ok x)
Outcome-cases (ok x) = inl (x, refl)
Outcome-cases (err e) = inr (λ x h. cc)
Outcome-cases panicked = inr (λ x h. cc)
Outcome-cases blocked = inr (λ x h. cc)

pub and_then-failed {ℓ} :
    {S A B : Type ℓ} (r : Outcome A × S) (f : A → Io S B)
    → ((x : A) → r.0 ≢ ok x)
    → ((and_then r f).1 ≡ r.1) × ((y : B) → (and_then r f).0 ≢ ok y)
and_then-failed (ok x, s) f h = absurd (h x refl)
and_then-failed (err e, s) f h = (refl, λ y g. cc)
and_then-failed (panicked, s) f h = (refl, λ y g. cc)
and_then-failed (blocked, s) f h = (refl, λ y g. cc)

pub and_then-returned {ℓ} :
    {S A B : Type ℓ} {x : A} (r : Outcome A × S) (f : A → Io S B)
    → r.0 ≡ ok x
    → and_then r f ≡ f x r.1
and_then-returned {x} (ok y, s) f h = let e : y ≡ x = cc in ap (λ z. f z s) e
and_then-returned (err e, s) f h = absurd (ground arith)
and_then-returned (panicked, s) f h = absurd (ground arith)
and_then-returned (blocked, s) f h = absurd (ground arith)

-- What holds of a panic and of all that can follow holds after `unwrap`.
pub unwrap-ends :
    {S A B : Type 0} (P : Outcome B × S → Type 0) (o : Option A) (f : A → Io S B) (s : S)
    → P (panicked, s)
    → ((x : A) → o ≡ some x → P (f x s))
    → P ((unwrap o >>= f) s)
unwrap-ends P none f s h k = h
unwrap-ends P (some x) f s h k = k x refl
