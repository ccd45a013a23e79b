-- ===== src/Sync/NoInterruptionsLocks/Watch.antt =====
-- Locks of sync/nointerruptionslocks.rs that are watched: the CPU is noted each time a function of
-- lock_api runs, which is when a lock is taken, tried, converted or released.
use cookie_os.Base.{
  ◌≡◌, sym, ap, ◌∙◌, ℕ, List, ◌∷◌, ◌⊎◌, Option, none, some, Outcome, ok, ◌>>=◌, >>=-eq-ok,
  ok_injective,
}
use cookie_os.Interruptions.{Cpu, disable_interruptions, enable_interruptions}
use cookie_os.Sync.NoInterruptionsLocks.{
  NoInterruptionsGuardWrapper, wrap_lock, wrap_guard, wrap_try_lock, drop_wrapper, wrap_upgrade,
  wrap_try_upgrade,
}

pub record Watched {ℓ} (L : Type ℓ) : Type ℓ where
  pub lock : L
  pub seen : List Cpu

module _ {ℓ κ} {L : Type ℓ} {A : Type κ} where
  unfoldable pub watch : (L → Outcome (L × A)) → Cpu → Watched L → Outcome (Watched L × A)
  watch function cpu locks = do
    (lock, a) ← function locks.lock
    ok (record { lock = lock; seen = cpu ∷ locks.seen }, a)

  watch-seen :
      (function : L → Outcome (L × A)) (cpu : Cpu) (locks : Watched L) (value : Watched L × A)
      → watch function cpu locks ≡ ok value
      → value.0.seen ≡ cpu ∷ locks.seen
  unfolding watch
  watch-seen function cpu locks value e =
      let (_, _, f) = >>=-eq-ok (function locks.lock) _ e in
      sym (ap (λ t. t.0.seen) (ok_injective f))

module _ {ℓ κ} {L : Type ℓ} {G : Type κ} where
  unfoldable pub watch_guard {μ} :
      {A : Type μ} → (L → G → Outcome (L × A)) → Cpu → Watched L → G → Outcome (Watched L × A)
  unfolding watch
  watch_guard function cpu locks guard = watch (λ lock. function lock guard) cpu locks

  unfoldable pub watch_drop : (L → G → Outcome L) → Cpu → Watched L → G → Outcome (Watched L)
  watch_drop drop_guard cpu locks guard = do
    lock ← drop_guard locks.lock guard
    ok (record { lock = lock; seen = cpu ∷ locks.seen })

  pub lock-seen :
      (function : L → Outcome (L × G)) (cpu cpu1 : Cpu) (locks locks1 : Watched L)
      (w : NoInterruptionsGuardWrapper G)
      → wrap_lock (watch function) cpu locks ≡ ok (cpu1, locks1, w)
      → locks1.seen ≡ (disable_interruptions cpu).0 ∷ locks.seen
  unfolding wrap_lock
  lock-seen function cpu cpu1 locks locks1 w e =
      let off = (disable_interruptions cpu).0 in
      let (value, h, f) = >>=-eq-ok (watch function off locks) _ e in
      sym (ap (λ t. t.1.seen) (ok_injective f)) ∙ watch-seen function off locks value h

  wrap_guard-locks :
      (cpu cpu1 : Cpu) (locks locks1 : Watched L) (ni : ℕ) (result : Option G)
      (wrapped : Option (NoInterruptionsGuardWrapper G))
      → wrap_guard cpu locks ni result ≡ ok (cpu1, locks1, wrapped)
      → locks1.seen ≡ locks.seen
  unfolding wrap_guard
  wrap_guard-locks cpu cpu1 locks locks1 ni none wrapped e =
      let (_, _, f) = >>=-eq-ok (enable_interruptions cpu ni) _ e in
      sym (ap (λ t. t.1.seen) (ok_injective f))
  wrap_guard-locks cpu cpu1 locks locks1 ni (some guard) wrapped e =
      sym (ap (λ t. t.1.seen) (ok_injective e))

  pub try_lock-seen :
      (function : L → Outcome (L × Option G)) (cpu cpu1 : Cpu) (locks locks1 : Watched L)
      (result : Option (NoInterruptionsGuardWrapper G))
      → wrap_try_lock (watch function) cpu locks ≡ ok (cpu1, locks1, result)
      → locks1.seen ≡ (disable_interruptions cpu).0 ∷ locks.seen
  unfolding wrap_try_lock
  try_lock-seen function cpu cpu1 locks locks1 result e =
      let (off, ni) = disable_interruptions cpu in
      let (value, h, f) = >>=-eq-ok (watch function off locks) _ e in
      wrap_guard-locks off cpu1 (value.0) locks1 ni (value.1) result f
      ∙ watch-seen function off locks value h

  pub drop-seen :
      (drop_guard : L → G → Outcome L) (cpu cpu1 : Cpu) (locks locks1 : Watched L)
      (w : NoInterruptionsGuardWrapper G)
      → drop_wrapper (watch_drop drop_guard) cpu locks w ≡ ok (cpu1, locks1)
      → locks1.seen ≡ cpu ∷ locks.seen
  unfolding drop_wrapper watch_drop
  drop-seen drop_guard cpu cpu1 locks locks1 w e =
      let (between, g, f) = >>=-eq-ok (watch_drop drop_guard cpu locks w.lock_guard) _ e in
      let (_, _, h) = >>=-eq-ok (enable_interruptions cpu w.interrupt_guard) _ f in
      let (_, _, k) = >>=-eq-ok (drop_guard locks.lock w.lock_guard) _ g in
      sym (ap (λ t. t.1.seen) (ok_injective h)) ∙ sym (ap (λ t. t.seen) (ok_injective k))

  pub upgrade-seen :
      (function : L → G → Outcome (L × G)) (cpu : Cpu) (locks locks1 : Watched L)
      (w w1 : NoInterruptionsGuardWrapper G)
      → wrap_upgrade (watch_guard function) cpu locks w ≡ ok (locks1, w1)
      → locks1.seen ≡ cpu ∷ locks.seen
  unfolding wrap_upgrade watch_guard
  upgrade-seen function cpu locks locks1 w w1 e =
      let at = λ (lock : L). function lock w.lock_guard in
      let (value, h, f) = >>=-eq-ok (watch at cpu locks) _ e in
      sym (ap (λ t. t.0.seen) (ok_injective f)) ∙ watch-seen at cpu locks value h

  pub try_upgrade-seen :
      (function : L → G → Outcome (L × (G ⊎ G))) (cpu : Cpu) (locks locks1 : Watched L)
      (w : NoInterruptionsGuardWrapper G)
      (result : NoInterruptionsGuardWrapper G ⊎ NoInterruptionsGuardWrapper G)
      → wrap_try_upgrade (watch_guard function) cpu locks w ≡ ok (locks1, result)
      → locks1.seen ≡ cpu ∷ locks.seen
  unfolding wrap_try_upgrade watch_guard
  try_upgrade-seen function cpu locks locks1 w result e =
      let at = λ (lock : L). function lock w.lock_guard in
      let (value, h, f) = >>=-eq-ok (watch at cpu locks) _ e in
      sym (ap (λ t. t.0.seen) (ok_injective f)) ∙ watch-seen at cpu locks value h
