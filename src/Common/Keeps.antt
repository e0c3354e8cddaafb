-- ===== src/Common/Keeps.antt =====
-- A property of the state that an async method keeps, whatever its outcome is, with a rule for each
-- way in which a method is put together.
use mathlib.Core.Path.{◌≡◌, refl}
use mathlib.Core.Bool.{Bool, true, false}
use mathlib.Core.Option.{Option, none, some}
use Prim.Native.String.{String}
use mpc_node.Common.Effects.{
  Outcome, ok, err, panicked, blocked, Io, and_then, or_fail, unwrap, when, ◌>>=◌,
}

module _ {S : Type 0} (Q : S → Type 0) where
  abbrev pub Keeps : {A : Type 0} → Io S A → Type 0
  Keeps m = (s : S) → Q s → Q (m s).1

  -- What is left to do after an outcome.
  pub Keeps-and_then :
      {A B : Type 0} (r : Outcome A × S) (f : A → Io S B)
      → Q r.1
      → ((a : A) → r.0 ≡ ok a → Keeps (f a))
      → Q (and_then r f).1
  Keeps-and_then (ok a, s) f h k = k a refl s h
  Keeps-and_then (err e, s) f h k = h
  Keeps-and_then (panicked, s) f h k = h
  Keeps-and_then (blocked, s) f h k = h

  pub Keeps-bind :
      {A B : Type 0} (m : Io S A) (f : A → Io S B)
      → Keeps m
      → ((a : A) → Keeps (f a))
      → Keeps (m >>= f)
  Keeps-bind m f hm hf s h = Keeps-and_then (m s) f (hm s h) (λ a e. hf a)

  -- The other rules are at one state: what a test or an optional value says of it is known on the way.
  pub Keeps-unwrap :
      {A B : Type 0} (o : Option A) (f : A → Io S B) (s : S)
      → Q s
      → ((a : A) → o ≡ some a → Q (f a s).1)
      → Q ((unwrap o >>= f) s).1
  Keeps-unwrap none f s h k = h
  Keeps-unwrap (some a) f s h k = k a refl

  pub Keeps-or_fail :
      {A B : Type 0} (o : Option A) (e : String) (f : A → Io S B) (s : S)
      → Q s
      → ((a : A) → o ≡ some a → Q (f a s).1)
      → Q ((or_fail o e >>= f) s).1
  Keeps-or_fail none e f s h k = h
  Keeps-or_fail (some a) e f s h k = k a refl

  pub Keeps-when :
      (b : Bool) (m : Io S (Unit {0})) (s : S) → Q s → (b ≡ true → Q (m s).1) → Q (when b m s).1
  Keeps-when true m s h k = k refl
  Keeps-when false m s h k = h

  pub Keeps-step :
      {A B : Type 0} (r : Outcome A × S) (f : A → Io S B)
      → Q r.1
      → ((a : A) → r.0 ≡ ok a → Q (f a r.1).1)
      → Q (and_then r f).1
  Keeps-step (ok a, s) f h k = k a refl
  Keeps-step (err e, s) f h k = h
  Keeps-step (panicked, s) f h k = h
  Keeps-step (blocked, s) f h k = h

  pub Keeps-lift :
      {A B : Type 0} (r : Outcome A) (f : A → Io S B) (s : S)
      → Q s
      → ((a : A) → r ≡ ok a → Q (f a s).1)
      → Q (and_then (r, s) f).1
  Keeps-lift (ok a) f s h k = k a refl
  Keeps-lift (err e) f s h k = h
  Keeps-lift panicked f s h k = h
  Keeps-lift blocked f s h k = h
