-- ===== src/Common/RwLock.antt =====
-- `tokio::sync::RwLock` as one task meets it: a guard that is alive counts, a second guard of the
-- same task waits for ever where the lock does not admit it.
use Prim.Native.Nat.{ℕ, ◌+◌, ◌-◌}
use mathlib.Core.Bool.{Bool, true, false, ◌||◌}
use mathlib.Core.Option.{Option, none, some}
use mpc_node.Common.Tests.{if◌then◌else◌, ltb}

pub record RwLock {ℓ} (V : Type ℓ) : Type ℓ where
  pub value : V
  pub writing : Bool
  pub readers : ℕ

module _ {ℓ} {V : Type ℓ} where
  -- `RwLock::new`
  abbrev pub unlocked : V → RwLock V
  unlocked v = record { value = v; writing = false; readers = 0 }

  -- `none` is a lock that has to be waited for.
  unfoldable pub lock_write : RwLock V → Option (RwLock V)
  lock_write l = if l.writing || ltb 0 l.readers then none else some (record l { writing = true })

  unfoldable pub lock_read : RwLock V → Option (RwLock V)
  lock_read l = if l.writing then none else some (record l { readers = l.readers + 1 })

  unfoldable pub drop_write : RwLock V → RwLock V
  drop_write l = record l { writing = false }

  unfoldable pub drop_read : RwLock V → RwLock V
  drop_read l = record l { readers = l.readers - 1 }
