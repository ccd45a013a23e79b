-- ===== src/Interruptions/Guards.antt =====
-- Guards of multitasking/interruptions.rs taken and dropped in any order.
use mathlib.Core.Path.{subst}
use cookie_os.Base.{
  ℕ, ◌+◌, ◌<◌, ◌≡◌, refl, sym, ap, ◌∙◌, inl, inr, Bool-cases, Bool, true, false, List, [], ◌∷◌,
  ◌++◌, length, ==_iff, Outcome, ok, arith, sum_by, sum_by-middle,
}
use cookie_os.Interruptions.Stack.{
  Stack, occurs, active_at, TopActive, Saved, interrupts_on, yield_off, Restored, deactivate_lem,
  restore_states_lem,
}
use cookie_os.Interruptions.{
  Cpu, disable_interruptions, enable_interruptions, restore_states, clear_interrupts,
  restore_interrupts, _without_interruptions_noalloc, _disable_interruptions_internal, deactivate,
  NoInterruptionsState, NoInterruptionsStateContainer,
}

-- A CPU and the guards that are held on it.
pub record System : Type 0 where
  pub cpu : Cpu
  pub guards : List ℕ

pub data Step (s : System) : System → Type 0 where
  disable : Step s (record {
    cpu = (disable_interruptions s.cpu).0;
    guards = (disable_interruptions s.cpu).1 ∷ s.guards;
  })
  drop_guard :
      (ps qs : List ℕ) (index : ℕ) (cpu : Cpu)
      → s.guards ≡ ps ++ index ∷ qs
      → enable_interruptions s.cpu index ≡ ok cpu
      → Step s (record { cpu = cpu; guards = ps ++ qs })

-- What is reached from a CPU where no guard is held.
pub data Reach (interrupts yield_disabled : Bool) : System → Type 0 where
  start : Reach interrupts yield_disabled (record {
    cpu = record { interrupts = interrupts; yield_disabled = yield_disabled; stack = [] };
    guards = [];
  })
  next :
      {s t : System}
      → Reach interrupts yield_disabled s
      → Step s t
      → Reach interrupts yield_disabled t

module _ (interrupts yield_disabled : Bool) where
  record Inv (s : System) : Type 0 where
    saved : Saved interrupts yield_disabled s.cpu.stack
    top_active : TopActive s.cpu.stack
    interrupts_eq : s.cpu.interrupts ≡ interrupts_on interrupts yield_disabled s.cpu.stack
    yield_eq : s.cpu.yield_disabled ≡ yield_off interrupts yield_disabled s.cpu.stack
    counts : (j : ℕ) → sum_by (occurs j) s.guards ≡ active_at j s.cpu.stack

  disable-Inv :
      (s : System)
      → Inv s
      → Inv (record {
        cpu = (disable_interruptions s.cpu).0;
        guards = (disable_interruptions s.cpu).1 ∷ s.guards;
      })
  unfolding disable_interruptions active_at Saved TopActive interrupts_on yield_off
  disable-Inv s inv = record {
    saved = (inv.interrupts_eq, inv.yield_eq, inv.saved);
    top_active = refl;
    interrupts_eq = refl;
    yield_eq = refl;
    counts = λ j. omega (arith, inv.counts j);
  }

  restore_interrupts_lem :
      (state : Bool) (cpu : Cpu)
      → cpu.interrupts ≡ false
      → restore_interrupts state cpu ≡ record cpu { interrupts = state }
  unfolding restore_interrupts
  restore_interrupts_lem true cpu h = refl
  restore_interrupts_lem false cpu h = cc

  occurs_self : (i : ℕ) → occurs i i ≡ 1
  occurs_self i = ground arith

  -- The containers that are active once the guard is dropped.
  left_active :
      (s : System) (ps qs : List ℕ) (index : ℕ)
      → s.guards ≡ ps ++ index ∷ qs
      → Inv s
      → (j : ℕ) → active_at j s.cpu.stack ≡ occurs j index + sum_by (occurs j) (ps ++ qs)
  left_active s ps qs index e inv j =
      omega (arith, inv.counts j, ap (sum_by (occurs j)) e, sum_by-middle (occurs j) ps qs index)

  Restored-Inv :
      (guards : List ℕ) (stack : Stack) (cpu : Cpu) (result : Cpu × Bool)
      → ((j : ℕ) → sum_by (occurs j) guards ≡ active_at j stack)
      → cpu.interrupts ≡ false
      → Restored interrupts yield_disabled stack cpu result
      → Inv (record { cpu = restore_interrupts result.1 result.0; guards = guards })
  Restored-Inv guards stack cpu result counts off r =
      subst (λ c. Inv (record { cpu = c; guards = guards }))
        (sym (restore_interrupts_lem result.1 result.0 (r.interrupts_kept ∙ off)))
        (record {
          saved = r.saved;
          top_active = r.top_active;
          interrupts_eq = r.interrupt_state_eq;
          yield_eq = r.yield_state;
          counts = λ j. counts j ∙ sym (r.counts j);
        })

  drop_lem :
      (s : System) (ps qs : List ℕ) (index : ℕ)
      → s.guards ≡ ps ++ index ∷ qs
      → Inv s
      → (cpu : Cpu) × (enable_interruptions s.cpu index ≡ ok cpu)
        × Inv (record { cpu = cpu; guards = ps ++ qs })
  unfolding enable_interruptions clear_interrupts
  drop_lem s ps qs index e inv =
      let counts = left_active s ps qs index e inv in
      let (new, f, d) =
        deactivate_lem interrupts yield_disabled index s.cpu.stack
          (omega (arith, counts index, occurs_self index)) inv.saved in
      let cleared = record s.cpu { interrupts = false } in
      let restored =
        restore_states_lem interrupts yield_disabled new cleared s.cpu.interrupts d.saved
          (inv.yield_eq ∙ sym d.same_yield) (inv.interrupts_eq ∙ sym d.same_interrupts) in
      let result = restore_states new cleared s.cpu.interrupts in
      (
        restore_interrupts result.1 result.0,
        rw (f) refl,
        Restored-Inv (ps ++ qs) new cleared result (λ j. omega (arith, counts j, d.counts j)) refl
            restored,
      )

  Step-Inv : {s t : System} → Step s t → Inv s → Inv t
  Step-Inv {s} disable inv = disable-Inv s inv
  Step-Inv {s} (drop_guard ps qs index cpu e f) inv =
      let (c, g, k) = drop_lem s ps qs index e inv in
      subst (λ d. Inv (record { cpu = d; guards = ps ++ qs })) (cc) k

  Reach-Inv : {s : System} → Reach interrupts yield_disabled s → Inv s
  unfolding active_at Saved TopActive interrupts_on yield_off
  Reach-Inv start = record {
    saved = tt;
    top_active = tt;
    interrupts_eq = refl;
    yield_eq = refl;
    counts = λ j. refl;
  }
  Reach-Inv (next r step) = Step-Inv step (Reach-Inv r)

  off_nonempty :
      (stack : Stack) (j : ℕ)
      → 0 < active_at j stack
      → (interrupts_on interrupts yield_disabled stack ≡ false)
        × (yield_off interrupts yield_disabled stack ≡ true)
  unfolding active_at interrupts_on yield_off
  off_nonempty [] j h = absurd (omega arith)
  off_nonempty (_ ∷ _) j h = (refl, refl)

  all_inactive : (stack : Stack) → TopActive stack → ((j : ℕ) → active_at j stack ≡ 0) → stack ≡ []
  unfolding active_at TopActive
  all_inactive [] a h = refl
  all_inactive (sc ∷ rest) a h = absurd (ground (arith, h (length rest), a))

  -- While a guard is held, whatever guards were taken and dropped before and in whatever order,
  -- interrupts are off and yields to the scheduler are disabled.
  pub disabled_while_held :
      {s : System}
      → Reach interrupts yield_disabled s
      → (ps qs : List ℕ) (index : ℕ) → s.guards ≡ ps ++ index ∷ qs
      → (s.cpu.interrupts ≡ false) × (s.cpu.yield_disabled ≡ true)
  disabled_while_held {s} r ps qs index e =
      let inv = Reach-Inv r in
      let (on, off) =
        off_nonempty s.cpu.stack index
          (omega (arith, left_active s ps qs index e inv index, occurs_self index)) in
      (inv.interrupts_eq ∙ on, inv.yield_eq ∙ off)

  -- Once no guard is held, the CPU is as it was before the first one was taken: interrupts and
  -- yields are on exactly if they were, and the stack of saved states is empty.
  pub restored_without_guards :
      {s : System}
      → Reach interrupts yield_disabled s
      → s.guards ≡ []
      → s.cpu ≡ record { interrupts = interrupts; yield_disabled = yield_disabled; stack = [] }
  unfolding interrupts_on yield_off
  restored_without_guards {s} r e =
      let inv = Reach-Inv r in
      let empty =
        all_inactive s.cpu.stack inv.top_active
          (λ j. sym (inv.counts j) ∙ ap (sum_by (occurs j)) e) in
      let on = inv.interrupts_eq ∙ ap (interrupts_on interrupts yield_disabled) empty in
      let off = inv.yield_eq ∙ ap (yield_off interrupts yield_disabled) empty in cc

  -- Dropping a held guard never panics: its index is within the stack of saved states.
  pub drop_guard_returns :
      {s : System}
      → Reach interrupts yield_disabled s
      → (ps qs : List ℕ) (index : ℕ) → s.guards ≡ ps ++ index ∷ qs
      → (cpu : Cpu) × (enable_interruptions s.cpu index ≡ ok cpu)
  drop_guard_returns {s} r ps qs index e =
      let (cpu, f, _) = drop_lem s ps qs index e (Reach-Inv r) in (cpu, f)

-- The containers below an active one are not touched.
restore_states_top :
    (stack : Stack) (cpu : Cpu) (interrupt_state : Bool)
    → TopActive stack
    → restore_states stack cpu interrupt_state ≡ (record cpu { stack = stack }, interrupt_state)
unfolding restore_states TopActive
restore_states_top [] cpu i a = refl
restore_states_top (sc ∷ rest) cpu i a = rw (a) refl

deactivate_pushed :
    (sc : NoInterruptionsStateContainer) (stack : Stack)
    → deactivate (length stack) (sc ∷ stack) ≡ ok (record sc { active = false } ∷ stack)
unfolding deactivate
deactivate_pushed sc stack = rw ((==_iff (length stack) (length stack)).1 refl) refl

restore_interrupts_back :
    (cpu : Cpu) → restore_interrupts cpu.interrupts (record cpu { interrupts = false }) ≡ cpu
unfolding restore_interrupts
restore_interrupts_back cpu = elim (Bool-cases cpu.interrupts) [
  | inl e ↦ rw (e) refl
  | inr e ↦ rw (e) refl
]

-- A guard that is dropped at once leaves the CPU as it was.
enable-disable :
    (cpu : Cpu)
    → TopActive cpu.stack
    → enable_interruptions (disable_interruptions cpu).0 (disable_interruptions cpu).1 ≡ ok cpu
unfolding enable_interruptions disable_interruptions _disable_interruptions_internal
    clear_interrupts restore_states
enable-disable cpu a =
    let state : NoInterruptionsState = record {
      interrupt_state = cpu.interrupts;
      yield_state = cpu.yield_disabled;
    } in
    let pushed : NoInterruptionsStateContainer = record { active = true; state = state } in
    let old : Cpu = record cpu { interrupts = false; stack = pushed ∷ cpu.stack } in
    rw
      (
        deactivate_pushed pushed cpu.stack,
        restore_states_top cpu.stack old cpu.interrupts a,
        restore_interrupts_back cpu,
      )
      refl

-- The same of a CPU that is reached.
pub disable_then_enable :
    {interrupts yield_disabled : Bool} {s : System}
    → Reach interrupts yield_disabled s
    → enable_interruptions (disable_interruptions s.cpu).0 (disable_interruptions s.cpu).1
      ≡ ok s.cpu
disable_then_enable {interrupts} {yield_disabled} {s} r =
    enable-disable s.cpu (Reach-Inv interrupts yield_disabled r).top_active

-- A closure that leaves the CPU as it finds it runs with interrupts off and yields disabled, and
-- `_without_interruptions_noalloc` then gives its result and the CPU as it was before the call.
pub without_interruptions_restores {ℓ} :
    {R : Type ℓ} (closure : Cpu → Outcome (Cpu × R)) (cpu : Cpu) (r : R)
    → (let off = record cpu { interrupts = false; yield_disabled = true } in
        closure off ≡ ok (off, r))
    → _without_interruptions_noalloc closure cpu ≡ ok (cpu, r)
unfolding _without_interruptions_noalloc _disable_interruptions_internal clear_interrupts
    restore_interrupts
without_interruptions_restores closure cpu r h = elim (Bool-cases cpu.interrupts) [
  | inl e ↦ rw (h, e) refl
  | inr e ↦ rw (h, e) refl
]
