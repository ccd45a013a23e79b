-- ===== src/Sync/BaseLocks.antt =====
-- kernel/rust/src/sync/baselocks.rs: the mutex and the reader-writer lock that every lock of the
-- kernel is an instance of. An atomic is its value, and each function here is one atomic operation
-- with the calls of the strategy after it; `Steps` interleaves them. Memory orderings are left out:
-- the steps are sequentially consistent. A strategy is a record of functions on its own state.
pub mod Steps
pub mod Counts
pub mod Exclusion
mod Tests
use cookie_os.Base.{
  ℕ, ◌+◌, ◌-◌, ◌%◌, ◌^◌, Bool, true, false, ltb, leb, not, ◌==◌, if◌then◌else◌, Outcome, ok, ◌>>=◌,
  ◌>>◌, assert,
}

abbrev pub fetch_add : ℕ → ℕ → ℕ
fetch_add value n = (value + n) % 2 ^ 64

abbrev pub fetch_sub : ℕ → ℕ → ℕ
fetch_sub value n = (value + (2 ^ 64 - n)) % 2 ^ 64

-- How an attempt ends.
pub data Attempt {ℓ} (L : Type ℓ) : Type ℓ where
  locked : L → Attempt L
  failed : L → Attempt L

pub record MutexStrategy {ℓ} (S : Type ℓ) : Type ℓ where
  pub on_unlock : S → S
  pub lock_relax : S → S

pub record BaseMutexRaw {ℓ} (S : Type ℓ) : Type ℓ where
  pub locked : Bool
  pub strategy : S

module _ {ℓ} {S : Type ℓ} (hooks : MutexStrategy S) where
  -- One `compare_exchange(false, true)`.
  unfoldable pub mutex_try_lock : BaseMutexRaw S → Attempt (BaseMutexRaw S)
  mutex_try_lock mutex =
      if mutex.locked then failed mutex else locked (record mutex { locked = true })

  unfoldable pub mutex_unlock : BaseMutexRaw S → BaseMutexRaw S
  mutex_unlock mutex = record { locked = false; strategy = hooks.on_unlock mutex.strategy }

  -- A turn of the inner loop of `lock`.
  pub mutex_relax : BaseMutexRaw S → BaseMutexRaw S
  mutex_relax mutex =
      if mutex.locked then record mutex { strategy = hooks.lock_relax mutex.strategy } else mutex

pub record RwLockStrategy {ℓ} (S : Type ℓ) : Type ℓ where
  pub on_read_unlock : ℕ → S → S
  pub read_relax : S → S
  pub on_write_unlock : S → S
  pub write_relax : S → S
  pub on_upgradeable_release : S → S
  pub upgradeable_relax : S → S
  pub upgrade_u2w_relax : S → S
  pub on_downgrade_w2r : S → S
  pub on_downgrade_w2u : S → S
  pub on_downgrade_u2r : S → S

abbrev pub writer : ℕ
writer = 2 ^ 56

abbrev pub upgrader : ℕ
upgrader = 2 ^ 48

abbrev pub exclusive_threshold : ℕ
exclusive_threshold = 2 ^ 40

pub record BaseRwLockRaw {ℓ} (S : Type ℓ) : Type ℓ where
  pub value : ℕ
  pub strategy : S

module _ {ℓ} {S : Type ℓ} (hooks : RwLockStrategy S) where
  -- `on_read_unlock((x % EXCLUSIVE_THRESHOLD) - 1)`, a subtraction that panics below 0.
  read_unlocked : ℕ → BaseRwLockRaw S → Outcome (BaseRwLockRaw S)
  read_unlocked x lock = do
    let readers = x % exclusive_threshold
    assert (ltb 0 readers)
    ok (record lock { strategy = hooks.on_read_unlock (readers - 1) lock.strategy })

  -- `try_lock_shared` up to its test.
  pub try_lock_shared_add : BaseRwLockRaw S → Attempt (BaseRwLockRaw S)
  try_lock_shared_add lock =
      let added = record lock { value = fetch_add lock.value 1 } in
      if leb exclusive_threshold lock.value then failed added else locked added

  -- What a failed `try_lock_shared` undoes, and `unlock_shared`.
  pub unlock_shared : BaseRwLockRaw S → Outcome (BaseRwLockRaw S)
  unfolding read_unlocked
  unlock_shared lock = read_unlocked lock.value (record lock { value = fetch_sub lock.value 1 })

  -- `lock_shared` waits.
  pub shared_relax : BaseRwLockRaw S → BaseRwLockRaw S
  shared_relax lock =
      if leb exclusive_threshold lock.value
      then record lock { strategy = hooks.read_relax lock.strategy }
      else lock

  pub try_lock_exclusive : BaseRwLockRaw S → Attempt (BaseRwLockRaw S)
  try_lock_exclusive lock =
      if lock.value == 0 then locked (record lock { value = writer }) else failed lock

  pub exclusive_relax : BaseRwLockRaw S → BaseRwLockRaw S
  exclusive_relax lock =
      if not (lock.value == 0)
      then record lock { strategy = hooks.write_relax lock.strategy }
      else lock

  pub unlock_exclusive : BaseRwLockRaw S → BaseRwLockRaw S
  unlock_exclusive lock = record {
    value = fetch_sub lock.value writer;
    strategy = hooks.on_write_unlock lock.strategy;
  }

  pub downgrade : BaseRwLockRaw S → BaseRwLockRaw S
  downgrade lock = record {
    value = fetch_sub lock.value (writer - 1);
    strategy = hooks.on_downgrade_w2r lock.strategy;
  }

  -- `try_lock_upgradable` up to its test.
  pub try_lock_upgradable_add : BaseRwLockRaw S → Attempt (BaseRwLockRaw S)
  try_lock_upgradable_add lock =
      let added = record lock { value = fetch_add lock.value upgrader } in
      if leb exclusive_threshold lock.value then failed added else locked added

  -- What a failed `try_lock_upgradable` undoes.
  pub try_lock_upgradable_undo : BaseRwLockRaw S → BaseRwLockRaw S
  try_lock_upgradable_undo lock = record lock { value = fetch_sub lock.value upgrader }

  pub upgradable_relax : BaseRwLockRaw S → BaseRwLockRaw S
  upgradable_relax lock =
      if leb exclusive_threshold lock.value
      then record lock { strategy = hooks.upgradeable_relax lock.strategy }
      else lock

  pub unlock_upgradable : BaseRwLockRaw S → BaseRwLockRaw S
  unlock_upgradable lock = record {
    value = fetch_sub lock.value upgrader;
    strategy = hooks.on_upgradeable_release lock.strategy;
  }

  pub try_upgrade : BaseRwLockRaw S → Attempt (BaseRwLockRaw S)
  try_upgrade lock =
      if lock.value == upgrader then locked (record lock { value = writer }) else failed lock

  pub upgrade_relax : BaseRwLockRaw S → BaseRwLockRaw S
  upgrade_relax lock =
      if not (lock.value == upgrader)
      then record lock { strategy = hooks.upgrade_u2w_relax lock.strategy }
      else lock

  pub downgrade_upgradable : BaseRwLockRaw S → BaseRwLockRaw S
  downgrade_upgradable lock = record {
    value = fetch_sub lock.value (upgrader - 1);
    strategy = hooks.on_downgrade_u2r lock.strategy;
  }

  pub downgrade_to_upgradable : BaseRwLockRaw S → BaseRwLockRaw S
  downgrade_to_upgradable lock = record {
    value = fetch_sub lock.value (writer - upgrader);
    strategy = hooks.on_downgrade_w2u lock.strategy;
  }

-- sync/spinlocks.rs: a strategy that only spins, by `R::relax`.
abbrev pub spin_mutex_strategy {ℓ} : {S : Type ℓ} → (S → S) → MutexStrategy S
spin_mutex_strategy relax = record { on_unlock = λ s. s; lock_relax = relax }

abbrev pub spin_rw_lock_strategy {ℓ} : {S : Type ℓ} → (S → S) → RwLockStrategy S
spin_rw_lock_strategy relax = record {
  on_read_unlock = λ _ s. s;
  read_relax = relax;
  on_write_unlock = λ s. s;
  write_relax = relax;
  on_upgradeable_release = λ s. s;
  upgradeable_relax = relax;
  upgrade_u2w_relax = relax;
  on_downgrade_w2r = λ s. s;
  on_downgrade_w2u = λ s. s;
  on_downgrade_u2r = λ s. s;
}
