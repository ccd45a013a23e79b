-- ===== src/Sync/BaseLocks/Counts.antt =====
-- How the value of a reader-writer lock of sync/baselocks.rs counts its threads, and what each
-- atomic operation does to the count.
use cookie_os.Base.{ℕ, ◌+◌, ◌*◌, ◌≤◌, ◌<◌, ◌≡◌, arith}
use cookie_os.Sync.BaseLocks.{
  BaseRwLockRaw, RwLockStrategy, writer, upgrader, try_lock_shared_add, unlock_shared,
  read_unlocked, shared_relax, try_lock_exclusive, exclusive_relax, unlock_exclusive, downgrade,
  try_lock_upgradable_add, try_lock_upgradable_undo, upgradable_relax, unlock_upgradable,
  try_upgrade, upgrade_relax, downgrade_upgradable, downgrade_to_upgradable,
}
use cookie_os.Sync.BaseLocks.Steps.{Thread, Action}
use Thread.{shared, exclusive, upgradable, retreating_shared, retreating_upgradable}

abbrev pub exclusive_of : Thread → ℕ
exclusive_of exclusive = 1
exclusive_of _ = 0

abbrev pub upgradable_of : Thread → ℕ
upgradable_of upgradable = 1
upgradable_of _ = 0

abbrev pub shared_of : Thread → ℕ
shared_of shared = 1
shared_of _ = 0

-- Upgraders that retreat, and readers that do.
abbrev pub upgrader_of : Thread → ℕ
upgrader_of retreating_upgradable = 1
upgrader_of _ = 0

abbrev pub reader_of : Thread → ℕ
reader_of retreating_shared = 1
reader_of _ = 0

-- The threads other than the one that acts.
pub record Others : Type 0 where
  pub e : ℕ
  pub u : ℕ
  pub s : ℕ
  pub ru : ℕ
  pub rs : ℕ

abbrev pub with_thread : Others → Thread → Others
with_thread o p = record {
  e = exclusive_of p + o.e;
  u = upgradable_of p + o.u;
  s = shared_of p + o.s;
  ru = upgrader_of p + o.ru;
  rs = reader_of p + o.rs;
}

-- The value of the lock; at most one thread is exclusive or upgradable; and, as there are fewer
-- than 256 threads, none is shared while one is exclusive.
abbrev pub Counted : Others → ℕ → Type 0
Counted o value =
    (value ≡ writer * o.e + upgrader * (o.u + o.ru) + (o.s + o.rs))
    × (o.e + o.u ≤ 1)
    × (256 * o.e + o.s ≤ 256)

module _ {ℓ} {S : Type ℓ} (hooks : RwLockStrategy S) where
  pub action_lem :
      (o : Others) (l k : BaseRwLockRaw S) (p q : Thread)
      → o.e + o.u + o.s + o.ru + o.rs < 255
      → Action hooks l p k q
      → Counted (with_thread o p) l.value
      → Counted (with_thread o q) k.value
  unfolding try_lock_shared_add unlock_shared read_unlocked shared_relax try_lock_exclusive
      exclusive_relax unlock_exclusive downgrade try_lock_upgradable_add try_lock_upgradable_undo
      upgradable_relax unlock_upgradable try_upgrade upgrade_relax downgrade_upgradable
      downgrade_to_upgradable
  action_lem o l k p q few (Action.lock_shared_ok h) c = ground arith
  action_lem o l k p q few (Action.lock_shared_fails h) c = ground arith
  action_lem o l k p q few (Action.shared_undone h) c = ground arith
  action_lem o l k p q few (Action.shared_unlocked h) c = ground arith
  action_lem o l k p q few (Action.lock_exclusive_ok h) c = ground arith
  action_lem o l k p q few (Action.lock_exclusive_fails h) c = ground arith
  action_lem o l k p q few (Action.lock_upgradable_ok h) c = ground arith
  action_lem o l k p q few (Action.lock_upgradable_fails h) c = ground arith
  action_lem o l k p q few (Action.upgraded h) c = ground arith
  action_lem o l k p q few (Action.upgrade_fails h) c = ground arith
  action_lem o l k p q few Action.shared_waits c = ground arith
  action_lem o l k p q few Action.exclusive_waits c = ground arith
  action_lem o l k p q few Action.exclusive_unlocked c = ground arith
  action_lem o l k p q few Action.downgraded c = ground arith
  action_lem o l k p q few Action.downgraded_to_upgradable c = ground arith
  action_lem o l k p q few Action.upgradable_undone c = ground arith
  action_lem o l k p q few Action.upgradable_waits c = ground arith
  action_lem o l k p q few Action.upgradable_unlocked c = ground arith
  action_lem o l k p q few Action.upgrade_waits c = ground arith
  action_lem o l k p q few Action.upgradable_downgraded c = ground arith
