-- ===== src/Common/Runs.antt =====
-- An outcome with which the task that awaits goes on: a value or an error, no panic and no lock that
-- is waited for without end.
use mathlib.Core.Path.{◌≡◌, refl}
use mathlib.Core.Option.{Option, none, some}
use mathlib.Core.Bool.{Bool, true, false}
use Prim.Native.String.{String}
use mpc_node.Common.Effects.{
  Outcome, ok, err, panicked, blocked, Io, and_then, or_fail, when, ◌>>=◌,
}

abbrev pub Runs : {A : Type 0} → Outcome A → Type 0
Runs (ok a) = Unit
Runs (err e) = Unit
Runs panicked = ⊥
Runs blocked = ⊥

module _ {S A B : Type 0} where
  pub Runs-and_then :
      (r : Outcome A × S) (f : A → Io S B)
      → Runs r.0
      → ((a : A) → r.0 ≡ ok a → Runs (f a r.1).0)
      → Runs (and_then r f).0
  Runs-and_then (ok a, s) f h k = k a refl
  Runs-and_then (err e, s) f h k = tt
  Runs-and_then (panicked, s) f h k = elim h [ ]
  Runs-and_then (blocked, s) f h k = elim h [ ]

  pub Runs-or_fail :
      (o : Option A) (e : String) (f : A → Io S B) (s : S)
      → ((a : A) → o ≡ some a → Runs (f a s).0)
      → Runs ((or_fail o e >>= f) s).0
  Runs-or_fail none e f s k = tt
  Runs-or_fail (some a) e f s k = k a refl

pub Runs-when :
    {S : Type 0} (b : Bool) (m : Io S (Unit {0})) (s : S)
    → (b ≡ true → Runs (m s).0)
    → Runs (when b m s).0
Runs-when true m s k = k refl
Runs-when false m s k = tt
