-- ===== src/Sync/NoInterruptionsLocks.antt =====
-- kernel/rust/src/sync/nointerruptionslocks.rs: locks that keep interruptions off while they are
-- held. The locks below are of the crate lock_api, whose functions are parameters: `L` is the state
-- of a lock and `G` that of a guard. A function also gets the CPU as it is when the function runs, as
-- an interrupt can come while a lock is waited for, held or released. Each of the file's macros is one function here, and each use
-- of it is that function at one function of lock_api.
mod Calls
pub mod Watch
pub mod Held
mod Tests
use cookie_os.Base.{ℕ, ◌⊎◌, inl, inr, Option, none, some, Outcome, ok, ◌>>=◌}
use cookie_os.Interruptions.{Cpu, disable_interruptions, enable_interruptions}

pub record NoInterruptionsGuardWrapper {ℓ} (G : Type ℓ) : Type ℓ where
  pub lock_guard : G
  pub interrupt_guard : ℕ

module _ {κ} {G : Type κ} where
  -- The lock guard stays, the other one is dropped.
  unfoldable pub into_lock_guard : Cpu → NoInterruptionsGuardWrapper G → Outcome (Cpu × G)
  into_lock_guard cpu s = do
    cpu1 ← enable_interruptions cpu s.interrupt_guard
    ok (cpu1, s.lock_guard)

module _ {κ μ} {G : Type κ} {H : Type μ} where
  -- The match on the result: `inl` is `Ok`, `inr` is `Err`.
  unfoldable pub wrap_result :
      ℕ → H ⊎ G → NoInterruptionsGuardWrapper H ⊎ NoInterruptionsGuardWrapper G
  wrap_result ni (inl guard) = inl (record { lock_guard = guard; interrupt_guard = ni })
  wrap_result ni (inr guard) = inr (record { lock_guard = guard; interrupt_guard = ni })

module _ {ℓ κ} {L : Type ℓ} {G : Type κ} where
  -- `ni_wrap_lock` for functions that wait until they have the lock.
  unfoldable pub wrap_lock :
      (Cpu → L → Outcome (L × G)) → Cpu → L → Outcome (Cpu × L × NoInterruptionsGuardWrapper G)
  wrap_lock function cpu lock = do
    let (cpu1, ni) = disable_interruptions cpu
    (lock1, guard) ← function cpu1 lock
    ok (cpu1, lock1, record { lock_guard = guard; interrupt_guard = ni })

  -- The closure given to `map`, and the drop of `ni` where it is not called.
  unfoldable pub wrap_guard :
      Cpu → L → ℕ → Option G → Outcome (Cpu × L × Option (NoInterruptionsGuardWrapper G))
  wrap_guard cpu lock ni none = do cpu1 ← enable_interruptions cpu ni; ok (cpu1, lock, none)
  wrap_guard cpu lock ni (some guard) =
      ok (cpu, lock, some (record { lock_guard = guard; interrupt_guard = ni }))

  -- `ni_wrap_lock` for functions that try to lock.
  unfoldable pub wrap_try_lock :
      (Cpu → L → Outcome (L × Option G))
      → Cpu
      → L
      → Outcome (Cpu × L × Option (NoInterruptionsGuardWrapper G))
  unfolding wrap_guard
  wrap_try_lock function cpu lock = do
    let (cpu1, ni) = disable_interruptions cpu
    (lock1, result) ← function cpu1 lock
    wrap_guard cpu1 lock1 ni result

  -- The end of a wrapper's life: its fields are dropped in their order.
  unfoldable pub drop_wrapper :
      (Cpu → L → G → Outcome L) → Cpu → L → NoInterruptionsGuardWrapper G → Outcome (Cpu × L)
  drop_wrapper drop_guard cpu lock s = do
    lock1 ← drop_guard cpu lock s.lock_guard
    cpu1 ← enable_interruptions cpu s.interrupt_guard
    ok (cpu1, lock1)

  unfoldable pub into_nointerrupt_guard :
      (Cpu → L → G → Outcome L) → Cpu → L → NoInterruptionsGuardWrapper G → Outcome (L × ℕ)
  into_nointerrupt_guard drop_guard cpu lock s = do
    lock1 ← drop_guard cpu lock s.lock_guard
    ok (lock1, s.interrupt_guard)

  module _ {μ} {H : Type μ} where
    -- `ni_wrap_upgrade` and `ni_wrap_map` for functions that return a guard.
    unfoldable pub wrap_upgrade :
        (Cpu → L → G → Outcome (L × H))
        → Cpu
        → L
        → NoInterruptionsGuardWrapper G
        → Outcome (L × NoInterruptionsGuardWrapper H)
    wrap_upgrade function cpu lock s = do
      (lock1, guard) ← function cpu lock s.lock_guard
      ok (lock1, record { lock_guard = guard; interrupt_guard = s.interrupt_guard })

    -- `ni_wrap_upgrade` and `ni_wrap_map` for functions that may give the guard back.
    unfoldable pub wrap_try_upgrade :
        (Cpu → L → G → Outcome (L × (H ⊎ G)))
        → Cpu
        → L
        → NoInterruptionsGuardWrapper G
        → Outcome (L × (NoInterruptionsGuardWrapper H ⊎ NoInterruptionsGuardWrapper G))
    unfolding wrap_result
    wrap_try_upgrade function cpu lock s = do
      (lock1, result) ← function cpu lock s.lock_guard
      ok (lock1, wrap_result s.interrupt_guard result)
