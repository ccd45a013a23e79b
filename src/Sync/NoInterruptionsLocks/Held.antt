-- ===== src/Sync/NoInterruptionsLocks/Held.antt =====
-- Locks of sync/nointerruptionslocks.rs that one CPU takes, converts and drops in any order. `L` is
-- the state of all locks, and `G` the type of all guards of lock_api. The locks are watched.
use mathlib.Core.Path.{subst}
use cookie_os.Base.{
  ◌≡◌, refl, sym, ap, ◌∙◌, Bool, true, false, List, [], ◌∷◌, ◌++◌, ◌⊎◌, Option, none, Outcome, ok,
  ◌>>=◌, All,
}
use cookie_os.Interruptions.{Cpu, disable_interruptions}
use cookie_os.Interruptions.Guards.{
  Reach, Step, disabled_while_held, restored_without_guards, disable_then_enable,
  drop_guard_returns,
}
use cookie_os.Sync.NoInterruptionsLocks.Watch.{
  Watched, watch, watch_guard, watch_drop, lock-seen, try_lock-seen, upgrade-seen, try_upgrade-seen,
  drop-seen,
}
use cookie_os.Sync.NoInterruptionsLocks.Calls.{
  push, either, guards_of, guards_of-++, lock_lem, drop_lem, upgrade_lem, try_upgrade_lem, Reaches,
  pushed-Reach, replaced, dropped-Reach, try_lock-Reach,
}
use cookie_os.Sync.NoInterruptionsLocks.{
  NoInterruptionsGuardWrapper, wrap_lock, wrap_guard, wrap_try_lock, drop_wrapper, wrap_upgrade,
  wrap_try_upgrade,
}

abbrev pub Off : Cpu → Type 0
Off cpu = (cpu.interrupts ≡ false) × (cpu.yield_disabled ≡ true)

-- A CPU, the locks and the wrappers that are held on the CPU.
pub record LockSystem {ℓ κ} (L : Type ℓ) (G : Type κ) : Type (ℓ ⊔ κ) where
  pub cpu : Cpu
  pub lock : Watched L
  pub held : List (NoInterruptionsGuardWrapper G)

-- A call may use any function of lock_api, and another CPU may change the locks at any time.
pub data LockStep {ℓ κ} {L : Type ℓ} {G : Type κ} (s : LockSystem L G)
    : LockSystem L G → Type (ℓ ⊔ κ) where
  lock :
      (function : L → Outcome (L × G)) (cpu : Cpu) (locks : Watched L)
      (w : NoInterruptionsGuardWrapper G)
      → wrap_lock (watch function) s.cpu s.lock ≡ ok (cpu, locks, w)
      → LockStep s (record { cpu = cpu; lock = locks; held = w ∷ s.held })
  try_lock :
      (function : L → Outcome (L × Option G)) (cpu : Cpu) (locks : Watched L)
      (result : Option (NoInterruptionsGuardWrapper G))
      → wrap_try_lock (watch function) s.cpu s.lock ≡ ok (cpu, locks, result)
      → LockStep s (record { cpu = cpu; lock = locks; held = push result s.held })
  upgrade :
      (function : L → G → Outcome (L × G)) (locks : Watched L)
      (ps qs : List (NoInterruptionsGuardWrapper G)) (w w1 : NoInterruptionsGuardWrapper G)
      → s.held ≡ ps ++ w ∷ qs
      → wrap_upgrade (watch_guard function) s.cpu s.lock w ≡ ok (locks, w1)
      → LockStep s (record { cpu = s.cpu; lock = locks; held = ps ++ w1 ∷ qs })
  try_upgrade :
      (function : L → G → Outcome (L × (G ⊎ G))) (locks : Watched L)
      (ps qs : List (NoInterruptionsGuardWrapper G)) (w : NoInterruptionsGuardWrapper G)
      (result : NoInterruptionsGuardWrapper G ⊎ NoInterruptionsGuardWrapper G)
      → s.held ≡ ps ++ w ∷ qs
      → wrap_try_upgrade (watch_guard function) s.cpu s.lock w ≡ ok (locks, result)
      → LockStep s (record { cpu = s.cpu; lock = locks; held = ps ++ either result ∷ qs })
  drop :
      (drop_guard : L → G → Outcome L) (cpu : Cpu) (locks : Watched L)
      (ps qs : List (NoInterruptionsGuardWrapper G)) (w : NoInterruptionsGuardWrapper G)
      → s.held ≡ ps ++ w ∷ qs
      → drop_wrapper (watch_drop drop_guard) s.cpu s.lock w ≡ ok (cpu, locks)
      → LockStep s (record { cpu = cpu; lock = locks; held = ps ++ qs })
  others :
      (locks : L)
      → LockStep s (record { cpu = s.cpu; lock = record s.lock { lock = locks }; held = s.held })

-- What is reached from a CPU that holds nothing.
pub data LockReach {ℓ κ} {L : Type ℓ} {G : Type κ} (interrupts yield_disabled : Bool)
    : LockSystem L G → Type (ℓ ⊔ κ) where
  start :
      (locks : L)
      → LockReach interrupts yield_disabled (record {
        cpu = record { interrupts = interrupts; yield_disabled = yield_disabled; stack = [] };
        lock = record { lock = locks; seen = [] };
        held = [];
      })
  next :
      {s t : LockSystem L G}
      → LockReach interrupts yield_disabled s
      → LockStep s t
      → LockReach interrupts yield_disabled t

module _ {ℓ κ} {L : Type ℓ} {G : Type κ} where
  module _ (interrupts yield_disabled : Bool) where
    Step-Reach :
        {s t : LockSystem L G}
        → LockStep s t
        → Reaches interrupts yield_disabled s.cpu s.held
        → Reaches interrupts yield_disabled t.cpu t.held
    unfolding Reaches
    Step-Reach {s} (lock function cpu locks w e) r =
        let (same, index) = lock_lem (watch function) s.cpu cpu s.lock locks w e in
        subst (λ c. Reaches interrupts yield_disabled c (w ∷ s.held)) (sym same)
          (pushed-Reach interrupts yield_disabled s.cpu s.held w r index)
    Step-Reach {s} (try_lock function cpu locks result e) r =
        try_lock-Reach interrupts yield_disabled (watch function) s.cpu cpu s.lock locks s.held
          result r e
    Step-Reach {s} (upgrade function locks ps qs w w1 e f) r =
        subst (λ gs. Reach interrupts yield_disabled (record { cpu = s.cpu; guards = gs }))
          (sym (
            replaced interrupts yield_disabled s.held ps qs w w1 e
              (upgrade_lem (watch_guard function) s.cpu s.lock locks w w1 f)))
          r
    Step-Reach {s} (try_upgrade function locks ps qs w result e f) r =
        subst (λ gs. Reach interrupts yield_disabled (record { cpu = s.cpu; guards = gs }))
          (sym (
            replaced interrupts yield_disabled s.held ps qs w (either result) e
              (try_upgrade_lem (watch_guard function) s.cpu s.lock locks w result f)))
          r
    Step-Reach {s} (drop drop_guard cpu locks ps qs w e f) r =
        dropped-Reach interrupts yield_disabled s.cpu cpu s.held ps qs w r e
          (drop_lem (watch_drop drop_guard) s.cpu cpu s.lock locks w f)
    Step-Reach {s} (others locks) r = r

    LockReach-Reach :
        {s : LockSystem L G}
        → LockReach interrupts yield_disabled s
        → Reach interrupts yield_disabled (record { cpu = s.cpu; guards = guards_of s.held })
    unfolding Reaches
    LockReach-Reach (start locks) = Reach.start
    LockReach-Reach (next r step) = Step-Reach step (LockReach-Reach r)

    held-Off :
        {s : LockSystem L G}
        → LockReach interrupts yield_disabled s
        → (ps qs : List (NoInterruptionsGuardWrapper G)) (w : NoInterruptionsGuardWrapper G)
        → s.held ≡ ps ++ w ∷ qs
        → Off s.cpu
    held-Off {s} r ps qs w e =
        disabled_while_held interrupts yield_disabled (LockReach-Reach r) (guards_of ps)
          (guards_of qs) w.interrupt_guard (ap guards_of e ∙ guards_of-++ ps (w ∷ qs))

    disabled-Off :
        {s : LockSystem L G}
        → LockReach interrupts yield_disabled s
        → Off (disable_interruptions s.cpu).0
    disabled-Off {s} r =
        disabled_while_held interrupts yield_disabled (Reach.next (LockReach-Reach r) Step.disable)
          [] (guards_of s.held) (disable_interruptions s.cpu).1 refl

    Step-seen :
        {s t : LockSystem L G}
        → LockReach interrupts yield_disabled s
        → LockStep s t
        → All Off s.lock.seen
        → All Off t.lock.seen
    Step-seen {s} r (lock function cpu locks w e) off =
        subst (All Off) (sym (lock-seen function s.cpu cpu s.lock locks w e)) (disabled-Off r, off)
    Step-seen {s} r (try_lock function cpu locks result e) off =
        subst (All Off) (sym (try_lock-seen function s.cpu cpu s.lock locks result e))
          (disabled-Off r, off)
    Step-seen {s} r (upgrade function locks ps qs w w1 e f) off =
        subst (All Off) (sym (upgrade-seen function s.cpu s.lock locks w w1 f))
          (held-Off r ps qs w e, off)
    Step-seen {s} r (try_upgrade function locks ps qs w result e f) off =
        subst (All Off) (sym (try_upgrade-seen function s.cpu s.lock locks w result f))
          (held-Off r ps qs w e, off)
    Step-seen {s} r (drop drop_guard cpu locks ps qs w e f) off =
        subst (All Off) (sym (drop-seen drop_guard s.cpu cpu s.lock locks w f))
          (held-Off r ps qs w e, off)
    Step-seen {s} r (others locks) off = off

    LockReach-seen :
        {s : LockSystem L G} → LockReach interrupts yield_disabled s → All Off s.lock.seen
    LockReach-seen (start locks) = tt
    LockReach-seen (next r step) = Step-seen r step (LockReach-seen r)

    -- Whatever locks were taken, tried, converted and dropped, in whatever order: interrupts were off on
    -- the CPU and yields to the scheduler disabled each time a lock was taken, tried, converted or
    -- released, and they are while a wrapper is held.
    pub disabled_while_locked :
        {s : LockSystem L G}
        → LockReach interrupts yield_disabled s
        → All Off s.lock.seen
          × ((ps qs : List (NoInterruptionsGuardWrapper G)) (w : NoInterruptionsGuardWrapper G)
              → s.held ≡ ps ++ w ∷ qs
              → Off s.cpu)
    disabled_while_locked r = (LockReach-seen r, held-Off r)

    -- Once no wrapper is held, the CPU is as it was before the first lock was taken, failed
    -- attempts included.
    pub restored_without_locks :
        {s : LockSystem L G}
        → LockReach interrupts yield_disabled s
        → s.held ≡ []
        → s.cpu ≡ record { interrupts = interrupts; yield_disabled = yield_disabled; stack = [] }
    restored_without_locks {s} r e =
        restored_without_guards interrupts yield_disabled (LockReach-Reach r) (ap guards_of e)

    -- Dropping a wrapper that is held never panics where the drop of its lock guard does not: the
    -- lock is as that drop leaves it.
    pub drop_wrapper_returns {μ} :
        {M : Type μ} {s : LockSystem L G}
        → LockReach interrupts yield_disabled s
        → (drop_guard : Cpu → M → G → Outcome M) (before after : M)
        → (ps qs : List (NoInterruptionsGuardWrapper G)) (w : NoInterruptionsGuardWrapper G)
        → s.held ≡ ps ++ w ∷ qs
        → drop_guard s.cpu before w.lock_guard ≡ ok after
        → (cpu : Cpu) × (drop_wrapper drop_guard s.cpu before w ≡ ok (cpu, after))
    unfolding drop_wrapper
    drop_wrapper_returns {s = s} r drop_guard before after ps qs w e f =
        let (cpu, g) =
          drop_guard_returns interrupts yield_disabled (LockReach-Reach r) (guards_of ps)
            (guards_of qs) w.interrupt_guard (ap guards_of e ∙ guards_of-++ ps (w ∷ qs)) in
        (cpu, rw (f, g) refl)

    -- An attempt that does not get the lock, whatever the CPU holds, leaves the CPU exactly as it
    -- was, and the locks as the attempt leaves them.
    pub failed_try_lock_restores {μ} :
        {M : Type μ} {s : LockSystem L G}
        → LockReach interrupts yield_disabled s
        → (function : Cpu → M → Outcome (M × Option G)) (before after : M)
        → function (disable_interruptions s.cpu).0 before ≡ ok (after, none)
        → wrap_try_lock function s.cpu before ≡ ok (s.cpu, after, none)
    unfolding wrap_try_lock wrap_guard
    failed_try_lock_restores r function before after e =
        rw (e, disable_then_enable (LockReach-Reach r)) refl

    -- A lock that is taken and dropped again, whatever the CPU holds, leaves the CPU exactly as it
    -- was.
    pub lock-drop {μ} :
        {M : Type μ} {s : LockSystem L G}
        → LockReach interrupts yield_disabled s
        → (function : Cpu → M → Outcome (M × G)) (drop_guard : Cpu → M → G → Outcome M)
        → (before between after : M) (guard : G)
        → function (disable_interruptions s.cpu).0 before ≡ ok (between, guard)
        → drop_guard (disable_interruptions s.cpu).0 between guard ≡ ok after
        → (wrap_lock function s.cpu before >>= λ t. drop_wrapper drop_guard (t.0) (t.1) (t.2))
          ≡ ok (s.cpu, after)
    unfolding wrap_lock drop_wrapper
    lock-drop r function drop_guard before between after guard e f =
        rw (e, f, disable_then_enable (LockReach-Reach r)) refl
