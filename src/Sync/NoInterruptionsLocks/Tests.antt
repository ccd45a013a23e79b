-- ===== src/Sync/NoInterruptionsLocks/Tests.antt =====
-- Runs of sync/nointerruptionslocks.rs over a mutex, and the witnesses of its theorems.
use cookie_os.Base.{
  ℕ, suc, ◌≡◌, refl, true, false, List, All, [], ◌∷◌, ◌++◌, Option, none, some, Outcome, ok,
}
use cookie_os.Interruptions.{
  Cpu, disable_interruptions, enable_interruptions, _disable_interruptions_internal,
  clear_interrupts, restore_interrupts, deactivate, restore_states,
}
use cookie_os.Sync.BaseLocks.{BaseMutexRaw, Attempt, mutex_try_lock, mutex_unlock}
use cookie_os.Sync.NoInterruptionsLocks.{
  NoInterruptionsGuardWrapper, wrap_guard, wrap_try_lock, into_lock_guard, into_nointerrupt_guard,
}
use cookie_os.Sync.NoInterruptionsLocks.Watch.{watch}
use cookie_os.Sync.NoInterruptionsLocks.Held.{
  Off, LockSystem, LockStep, LockReach, disabled_while_locked, failed_try_lock_restores,
}

-- A mutex that counts its unlocks, and its guard, which is the value it protects.
abbrev Mutex : Type 0
Mutex = BaseMutexRaw ℕ

abbrev guarded : Attempt Mutex → Outcome (Mutex × Option ℕ)
guarded (Attempt.locked mutex) = ok (mutex, some 7)
guarded (Attempt.failed mutex) = ok (mutex, none)

abbrev try_mutex : Mutex → Outcome (Mutex × Option ℕ)
try_mutex mutex = guarded (mutex_try_lock (record { on_unlock = suc; lock_relax = λ n. n }) mutex)

abbrev release_mutex : Cpu → Mutex → ℕ → Outcome Mutex
release_mutex cpu mutex _ =
    ok (mutex_unlock (record { on_unlock = suc; lock_relax = λ n. n }) mutex)

abbrev free : Mutex
free = record { locked = false; strategy = 0 }

abbrev taken : Mutex
taken = record { locked = true; strategy = 0 }

abbrev disabled_once : Cpu
disabled_once = record {
  interrupts = false;
  yield_disabled = true;
  stack =
      record { active = true; state = record { interrupt_state = true; yield_state = false } } ∷ [];
}

abbrev held_once : LockSystem Mutex ℕ
held_once = record {
  cpu = disabled_once;
  lock = record { lock = taken; seen = disabled_once ∷ [] };
  held = record { lock_guard = 7; interrupt_guard = 0 } ∷ [];
}

held_once-LockReach : LockReach true false held_once
unfolding wrap_try_lock wrap_guard disable_interruptions _disable_interruptions_internal
    clear_interrupts mutex_try_lock watch
held_once-LockReach = LockReach.next (LockReach.start free) (
    LockStep.try_lock try_mutex held_once.cpu held_once.lock
      (some (record { lock_guard = 7; interrupt_guard = 0 })) refl)

disabled_while_locked_example :
    All Off (disabled_once ∷ [])
    × ((ps qs : List (NoInterruptionsGuardWrapper ℕ)) (w : NoInterruptionsGuardWrapper ℕ)
        → held_once.held ≡ ps ++ w ∷ qs
        → Off disabled_once)
disabled_while_locked_example = disabled_while_locked true false held_once-LockReach

failed_try_lock_restores_example :
    wrap_try_lock (λ cpu mutex. try_mutex mutex) held_once.cpu taken
    ≡ ok (held_once.cpu, taken, none)
unfolding mutex_try_lock
failed_try_lock_restores_example =
    failed_try_lock_restores true false held_once-LockReach (λ cpu mutex. try_mutex mutex) taken
      taken refl

-- The guard of interruptions goes with the lock guard, and is dropped where that stays.
into_lock_guard_run :
    into_lock_guard {G = ℕ} held_once.cpu (record { lock_guard = 7; interrupt_guard = 0 })
    ≡ ok (record { interrupts = true; yield_disabled = false; stack = [] }, 7)
unfolding into_lock_guard enable_interruptions clear_interrupts deactivate restore_states
    restore_interrupts
into_lock_guard_run = refl

into_nointerrupt_guard_run :
    into_nointerrupt_guard {G = ℕ} release_mutex held_once.cpu taken
      (record { lock_guard = 7; interrupt_guard = 0 })
    ≡ ok (record { locked = false; strategy = 1 }, 0)
unfolding into_nointerrupt_guard mutex_unlock
into_nointerrupt_guard_run = refl
