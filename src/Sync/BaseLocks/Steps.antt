-- ===== src/Sync/BaseLocks/Steps.antt =====
-- Threads that use one reader-writer lock of sync/baselocks.rs: the atomic operations of all of
-- them in any order.
use cookie_os.Base.{List, ◌∷◌, ◌++◌, ◌≡◌, All, ok}
use cookie_os.Sync.BaseLocks.{
  BaseRwLockRaw, RwLockStrategy, locked, failed, try_lock_shared_add, unlock_shared, shared_relax,
  try_lock_exclusive, exclusive_relax, unlock_exclusive, downgrade, try_lock_upgradable_add,
  try_lock_upgradable_undo, upgradable_relax, unlock_upgradable, try_upgrade, upgrade_relax,
  downgrade_upgradable, downgrade_to_upgradable,
}

-- What a thread holds. It retreats between the two atomic operations of an attempt that fails.
pub data Thread : Type 0 where
  idle shared exclusive upgradable retreating_shared retreating_upgradable : Thread

module _ {ℓ} {S : Type ℓ} (hooks : RwLockStrategy S) where
  -- One atomic operation: the lock and the thread before, and after.
  pub data Action (l : BaseRwLockRaw S) : Thread → BaseRwLockRaw S → Thread → Type ℓ where
    lock_shared_ok :
        {k : BaseRwLockRaw S} → try_lock_shared_add hooks l ≡ locked k → Action l idle k shared
    lock_shared_fails :
        {k : BaseRwLockRaw S}
        → try_lock_shared_add hooks l ≡ failed k
        → Action l idle k retreating_shared
    shared_undone :
        {k : BaseRwLockRaw S} → unlock_shared hooks l ≡ ok k → Action l retreating_shared k idle
    shared_waits : Action l idle (shared_relax hooks l) idle
    shared_unlocked : {k : BaseRwLockRaw S} → unlock_shared hooks l ≡ ok k → Action l shared k idle
    lock_exclusive_ok :
        {k : BaseRwLockRaw S} → try_lock_exclusive hooks l ≡ locked k → Action l idle k exclusive
    lock_exclusive_fails :
        {k : BaseRwLockRaw S} → try_lock_exclusive hooks l ≡ failed k → Action l idle k idle
    exclusive_waits : Action l idle (exclusive_relax hooks l) idle
    exclusive_unlocked : Action l exclusive (unlock_exclusive hooks l) idle
    downgraded : Action l exclusive (downgrade hooks l) shared
    downgraded_to_upgradable : Action l exclusive (downgrade_to_upgradable hooks l) upgradable
    lock_upgradable_ok :
        {k : BaseRwLockRaw S}
        → try_lock_upgradable_add hooks l ≡ locked k
        → Action l idle k upgradable
    lock_upgradable_fails :
        {k : BaseRwLockRaw S}
        → try_lock_upgradable_add hooks l ≡ failed k
        → Action l idle k retreating_upgradable
    upgradable_undone : Action l retreating_upgradable (try_lock_upgradable_undo hooks l) idle
    upgradable_waits : Action l idle (upgradable_relax hooks l) idle
    upgradable_unlocked : Action l upgradable (unlock_upgradable hooks l) idle
    upgraded :
        {k : BaseRwLockRaw S} → try_upgrade hooks l ≡ locked k → Action l upgradable k exclusive
    upgrade_fails :
        {k : BaseRwLockRaw S} → try_upgrade hooks l ≡ failed k → Action l upgradable k upgradable
    upgrade_waits : Action l upgradable (upgrade_relax hooks l) upgradable
    upgradable_downgraded : Action l upgradable (downgrade_upgradable hooks l) shared

  pub record System : Type ℓ where
    pub lock : BaseRwLockRaw S
    pub threads : List Thread

  pub data Step (s : System) : System → Type ℓ where
    act :
        (ps qs : List Thread) {p q : Thread} {k : BaseRwLockRaw S}
        → s.threads ≡ ps ++ p ∷ qs
        → Action s.lock p k q
        → Step s (record { lock = k; threads = ps ++ q ∷ qs })

  -- What is reached from a new lock and threads that hold nothing.
  pub data Reach : System → Type ℓ where
    start :
        (strategy : S) (threads : List Thread)
        → All (λ p. p ≡ idle) threads
        → Reach (record { lock = record { value = 0; strategy = strategy }; threads = threads })
    next : {s t : System} → Reach s → Step s t → Reach t
