-- ===== src/Interruptions/Stack.antt =====
-- The stack of saved states of multitasking/interruptions.rs: what `deactivate` and the loop of
-- `enable_interruptions` do to it.
use mathlib.Core.Path.{subst}
use cookie_os.Base.{
  ℕ, suc, ◌+◌, ◌≤◌, ◌<◌, ◌≡◌, refl, sym, ap, ◌∙◌, inl, inr, Bool-cases, ==_iff, Bool, true, false,
  List, [], ◌∷◌, length, ◌==◌, if◌then◌else◌, ok, arith,
}
use cookie_os.Interruptions.{Cpu, NoInterruptionsStateContainer, deactivate, restore_states}

abbrev pub Stack : Type 0
Stack = List NoInterruptionsStateContainer

abbrev pub occurs : ℕ → ℕ → ℕ
occurs j i = if j == i then 1 else 0

-- How many active containers stand at the index.
unfoldable pub active_at : ℕ → Stack → ℕ
active_at j [] = 0
active_at j (sc ∷ rest) = (if sc.active then occurs j (length rest) else 0) + active_at j rest

unfoldable pub TopActive : Stack → Type 0
TopActive [] = Unit {0}
TopActive (sc ∷ rest) = sc.active ≡ true

-- What a container on top of the stack has saved: the original state at the bottom, else "off".
module _ (interrupts yield_disabled : Bool) where
  unfoldable pub interrupts_on : Stack → Bool
  interrupts_on [] = interrupts
  interrupts_on (_ ∷ _) = false

  unfoldable pub yield_off : Stack → Bool
  yield_off [] = yield_disabled
  yield_off (_ ∷ _) = true

  unfoldable pub Saved : Stack → Type 0
  Saved [] = Unit {0}
  Saved (sc ∷ rest) =
      (sc.state.interrupt_state ≡ interrupts_on rest)
      × (sc.state.yield_state ≡ yield_off rest)
      × Saved rest

  active_at_above : (stack : Stack) (j : ℕ) → length stack ≤ j → active_at j stack ≡ 0
  unfolding active_at
  active_at_above [] j h = refl
  active_at_above (sc ∷ rest) j h = ground (arith, active_at_above rest j)

  -- Of `deactivate` at an active index.
  pub record Deactivated (index : ℕ) (old new : Stack) : Type 0 where
    pub saved : Saved new
    pub counts : (j : ℕ) → active_at j new + occurs j index ≡ active_at j old
    pub same_length : length new ≡ length old
    pub same_interrupts : interrupts_on new ≡ interrupts_on old
    pub same_yield : yield_off new ≡ yield_off old

  deactivate_below :
      (index : ℕ) (sc : NoInterruptionsStateContainer) (rest new : Stack)
      → Saved (sc ∷ rest)
      → Deactivated index rest new
      → Deactivated index (sc ∷ rest) (sc ∷ new)
  unfolding active_at Saved interrupts_on yield_off
  deactivate_below index sc rest new (e, f, s) d = record {
    saved = (e ∙ sym d.same_interrupts, f ∙ sym d.same_yield, d.saved);
    counts = λ j. rw (d.same_length) (omega (arith, d.counts j));
    same_length = ap suc d.same_length;
    same_interrupts = refl;
    same_yield = refl;
  }

  deactivate_top :
      (sc : NoInterruptionsStateContainer) (rest : Stack)
      → Saved (sc ∷ rest)
      → sc.active ≡ true
      → Deactivated (length rest) (sc ∷ rest) (record sc { active = false } ∷ rest)
  unfolding active_at Saved interrupts_on yield_off
  deactivate_top sc rest s e = record {
    saved = s;
    counts = λ j. rw (e) (omega arith);
    same_length = refl;
    same_interrupts = refl;
    same_yield = refl;
  }

  pub deactivate_lem :
      (index : ℕ) (stack : Stack)
      → 0 < active_at index stack
      → Saved stack
      → (new : Stack) × (deactivate index stack ≡ ok new) × Deactivated index stack new
  unfolding active_at deactivate Saved
  deactivate_lem index [] h s = absurd (omega arith)
  deactivate_lem index (sc ∷ rest) h s = elim (Bool-cases (index == length rest)) [
    | inl at ↦ elim (Bool-cases sc.active) [
      | inl e ↦ (
        record sc { active = false } ∷ rest,
        rw (at) refl,
        subst (λ i. Deactivated i (sc ∷ rest) (record sc { active = false } ∷ rest))
            (sym ((==_iff index (length rest)).0 at)) (deactivate_top sc rest s e),
      )
      | inr e ↦ absurd (ground (arith, active_at_above rest index))
    ]
    | inr off ↦
        let (new, f, d) = deactivate_lem index rest (ground arith) s.2 in
        (sc ∷ new, rw (off, f) refl, deactivate_below index sc rest new s d)
  ]

  -- The values that are in force once the loop ends, and the stack that is left.
  pub record Restored (old : Stack) (cpu : Cpu) (result : Cpu × Bool) : Type 0 where
    pub saved : Saved result.0.stack
    pub top_active : TopActive result.0.stack
    pub counts : (j : ℕ) → active_at j result.0.stack ≡ active_at j old
    pub interrupts_kept : result.0.interrupts ≡ cpu.interrupts
    pub yield_state : result.0.yield_disabled ≡ yield_off result.0.stack
    pub interrupt_state_eq : result.1 ≡ interrupts_on result.0.stack

  pub restore_states_lem :
      (stack : Stack) (cpu : Cpu) (interrupt_state : Bool)
      → Saved stack
      → cpu.yield_disabled ≡ yield_off stack
      → interrupt_state ≡ interrupts_on stack
      → Restored stack cpu (restore_states stack cpu interrupt_state)
  unfolding active_at restore_states Saved TopActive interrupts_on yield_off
  restore_states_lem [] cpu i s y e = record {
    saved = tt;
    top_active = tt;
    counts = λ j. refl;
    interrupts_kept = refl;
    yield_state = y;
    interrupt_state_eq = e;
  }
  restore_states_lem (sc ∷ rest) cpu i s y e = elim (Bool-cases sc.active) [
    | inl a ↦
        subst (Restored (sc ∷ rest) cpu) {x = (record cpu { stack = sc ∷ rest }, i)} (simp (a))
          (record {
            saved = s;
            top_active = a;
            counts = λ j. refl;
            interrupts_kept = refl;
            yield_state = y;
            interrupt_state_eq = e;
          })
    | inr a ↦
        let popped =
          restore_states_lem rest (record cpu { yield_disabled = sc.state.yield_state })
            sc.state.interrupt_state s.2 s.1 s.0 in
        subst (Restored (sc ∷ rest) cpu)
          {x = restore_states rest (record cpu { yield_disabled = sc.state.yield_state })
            sc.state.interrupt_state}
          (simp (a))
          (record {
            saved = popped.saved;
            top_active = popped.top_active;
            counts = λ j. rw (a) (omega (arith, popped.counts j));
            interrupts_kept = popped.interrupts_kept;
            yield_state = popped.yield_state;
            interrupt_state_eq = popped.interrupt_state_eq;
          })
  ]
