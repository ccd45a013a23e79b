-- ===== src/Sync/NoInterruptionsLocks/Calls.antt =====
-- What each call of sync/nointerruptionslocks.rs does to the guard of interruptions that is in a
-- wrapper, and to the CPU.
use mathlib.Core.Path.{subst}
use cookie_os.Base.{
  ℕ, ◌≡◌, refl, sym, ap, ◌∙◌, Bool, List, [], ◌∷◌, ◌++◌, ◌⊎◌, inl, inr, Option, none, some, Outcome,
  ok, >>=-eq-ok, ok_injective,
}
use cookie_os.Interruptions.{Cpu, disable_interruptions, enable_interruptions}
use cookie_os.Interruptions.Guards.{Step, Reach, disable_then_enable}
use cookie_os.Sync.NoInterruptionsLocks.{
  NoInterruptionsGuardWrapper, wrap_lock, wrap_guard, wrap_try_lock, drop_wrapper, wrap_upgrade,
  wrap_result, wrap_try_upgrade,
}

module _ {κ} {G : Type κ} where
  -- What a call that tried to lock adds to the wrappers that are held.
  abbrev pub push :
      Option (NoInterruptionsGuardWrapper G)
      → List (NoInterruptionsGuardWrapper G)
      → List (NoInterruptionsGuardWrapper G)
  push none held = held
  push (some w) held = w ∷ held

  abbrev pub either :
      NoInterruptionsGuardWrapper G ⊎ NoInterruptionsGuardWrapper G → NoInterruptionsGuardWrapper G
  either (inl w) = w
  either (inr w) = w

  abbrev pub guards_of : List (NoInterruptionsGuardWrapper G) → List ℕ
  guards_of [] = []
  guards_of (w ∷ ws) = w.interrupt_guard ∷ guards_of ws

  pub guards_of-++ :
      (ps qs : List (NoInterruptionsGuardWrapper G))
      → guards_of (ps ++ qs) ≡ guards_of ps ++ guards_of qs
  guards_of-++ [] qs = refl
  guards_of-++ (w ∷ ps) qs = ap (w.interrupt_guard ∷◌) (guards_of-++ ps qs)

  either-wrap_result :
      (ni : ℕ) (result : G ⊎ G) → (either (wrap_result ni result)).interrupt_guard ≡ ni
  unfolding wrap_result
  either-wrap_result ni (inl guard) = refl
  either-wrap_result ni (inr guard) = refl

module _ {ℓ κ} {L : Type ℓ} {G : Type κ} where
  pub lock_lem :
      (function : Cpu → L → Outcome (L × G)) (cpu cpu1 : Cpu) (locks locks1 : L)
      (w : NoInterruptionsGuardWrapper G)
      → wrap_lock function cpu locks ≡ ok (cpu1, locks1, w)
      → (cpu1 ≡ (disable_interruptions cpu).0) × (w.interrupt_guard ≡ (disable_interruptions cpu).1)
  unfolding wrap_lock
  lock_lem function cpu cpu1 locks locks1 w e =
      let (value, _, f) = >>=-eq-ok (function (disable_interruptions cpu).0 locks) _ e in
      let same = ok_injective f in
      (sym (ap (λ t. t.0) same), sym (ap (λ t. t.2.interrupt_guard) same))

  pub drop_lem :
      (drop_guard : Cpu → L → G → Outcome L) (cpu cpu1 : Cpu) (locks locks1 : L)
      (w : NoInterruptionsGuardWrapper G)
      → drop_wrapper drop_guard cpu locks w ≡ ok (cpu1, locks1)
      → enable_interruptions cpu w.interrupt_guard ≡ ok cpu1
  unfolding drop_wrapper
  drop_lem drop_guard cpu cpu1 locks locks1 w e =
      let (between, _, f) = >>=-eq-ok (drop_guard cpu locks w.lock_guard) _ e in
      let (cpu2, g, h) = >>=-eq-ok (enable_interruptions cpu w.interrupt_guard) _ f in
      g ∙ ap (λ t. ok (t.0)) (ok_injective h)

  module _ {μ} {H : Type μ} where
    pub upgrade_lem :
        (function : Cpu → L → G → Outcome (L × H)) (cpu : Cpu) (locks locks1 : L)
        (w : NoInterruptionsGuardWrapper G) (w1 : NoInterruptionsGuardWrapper H)
        → wrap_upgrade function cpu locks w ≡ ok (locks1, w1)
        → w1.interrupt_guard ≡ w.interrupt_guard
    unfolding wrap_upgrade
    upgrade_lem function cpu locks locks1 w w1 e =
        let (value, _, f) = >>=-eq-ok (function cpu locks w.lock_guard) _ e in
        sym (ap (λ t. t.1.interrupt_guard) (ok_injective f))

  pub try_upgrade_lem :
      (function : Cpu → L → G → Outcome (L × (G ⊎ G))) (cpu : Cpu) (locks locks1 : L)
      (w : NoInterruptionsGuardWrapper G)
      (result : NoInterruptionsGuardWrapper G ⊎ NoInterruptionsGuardWrapper G)
      → wrap_try_upgrade function cpu locks w ≡ ok (locks1, result)
      → (either result).interrupt_guard ≡ w.interrupt_guard
  unfolding wrap_try_upgrade
  try_upgrade_lem function cpu locks locks1 w result e =
      let (value, _, f) = >>=-eq-ok (function cpu locks w.lock_guard) _ e in
      sym (ap (λ t. (either (t.1)).interrupt_guard) (ok_injective f))
      ∙ either-wrap_result w.interrupt_guard value.1

-- A CPU that is reached with the guards of the wrappers.
module _ (interrupts yield_disabled : Bool) where
  module _ {κ} {G : Type κ} where
    unfoldable pub Reaches : Cpu → List (NoInterruptionsGuardWrapper G) → Type 0
    Reaches cpu held =
        Reach interrupts yield_disabled (record { cpu = cpu; guards = guards_of held })

    pub pushed-Reach :
        (cpu : Cpu) (held : List (NoInterruptionsGuardWrapper G))
        (w : NoInterruptionsGuardWrapper G)
        → Reaches cpu held
        → w.interrupt_guard ≡ (disable_interruptions cpu).1
        → Reaches (disable_interruptions cpu).0 (w ∷ held)
    unfolding Reaches
    pushed-Reach cpu held w r e =
        subst
          (λ i.
            Reach interrupts yield_disabled
              (record { cpu = (disable_interruptions cpu).0; guards = i ∷ guards_of held }))
          (sym e) (Reach.next r Step.disable)

    -- A wrapper that is replaced by one with the same guard, and one that is dropped.
    pub replaced :
        (held ps qs : List (NoInterruptionsGuardWrapper G)) (w w1 : NoInterruptionsGuardWrapper G)
        → held ≡ ps ++ w ∷ qs
        → w1.interrupt_guard ≡ w.interrupt_guard
        → guards_of (ps ++ w1 ∷ qs) ≡ guards_of held
    replaced held ps qs w w1 e same =
        guards_of-++ ps (w1 ∷ qs)
        ∙ ap (λ i. guards_of ps ++ i ∷ guards_of qs) same
        ∙ sym (guards_of-++ ps (w ∷ qs))
        ∙ ap guards_of (sym e)

    pub dropped-Reach :
        (cpu cpu1 : Cpu) (held ps qs : List (NoInterruptionsGuardWrapper G))
        (w : NoInterruptionsGuardWrapper G)
        → Reaches cpu held
        → held ≡ ps ++ w ∷ qs
        → enable_interruptions cpu w.interrupt_guard ≡ ok cpu1
        → Reaches cpu1 (ps ++ qs)
    unfolding Reaches
    dropped-Reach cpu cpu1 held ps qs w r e f =
        subst (λ gs. Reach interrupts yield_disabled (record { cpu = cpu1; guards = gs }))
          (sym (guards_of-++ ps qs))
          (Reach.next r (
            Step.drop_guard (guards_of ps) (guards_of qs) w.interrupt_guard cpu1
              (ap guards_of e ∙ guards_of-++ ps (w ∷ qs)) f))

  module _ {ℓ κ} {L : Type ℓ} {G : Type κ} where
    -- Without the lock, the guard is dropped again.
    guarded-Reach :
        (cpu cpu1 : Cpu) (locks locks1 : L) (held : List (NoInterruptionsGuardWrapper G))
        (result : Option G) (wrapped : Option (NoInterruptionsGuardWrapper G))
        → Reaches cpu held
        → wrap_guard (disable_interruptions cpu).0 locks (disable_interruptions cpu).1 result
          ≡ ok (cpu1, locks1, wrapped)
        → Reaches cpu1 (push wrapped held)
    unfolding wrap_guard Reaches
    guarded-Reach cpu cpu1 locks locks1 held none wrapped r e =
        subst (λ t. Reaches (t.0) (push (t.2) held))
          (ok_injective (rw (disable_then_enable r) at e)) r
    guarded-Reach cpu cpu1 locks locks1 held (some guard) wrapped r e =
        subst (λ t. Reaches (t.0) (push (t.2) held)) (ok_injective e)
          (pushed-Reach cpu held (record { lock_guard = guard; interrupt_guard = _ }) r refl)

    pub try_lock-Reach :
        (function : Cpu → L → Outcome (L × Option G)) (cpu cpu1 : Cpu) (locks locks1 : L)
        (held : List (NoInterruptionsGuardWrapper G))
        (result : Option (NoInterruptionsGuardWrapper G))
        → Reaches cpu held
        → wrap_try_lock function cpu locks ≡ ok (cpu1, locks1, result)
        → Reaches cpu1 (push result held)
    unfolding wrap_try_lock
    try_lock-Reach function cpu cpu1 locks locks1 held result r e =
        let (value, _, f) = >>=-eq-ok (function (disable_interruptions cpu).0 locks) _ e in
        guarded-Reach cpu cpu1 (value.0) locks1 held (value.1) result r f
