-- ===== src/Interruptions/Tests.antt =====
-- Runs of multitasking/interruptions.rs at concrete states, and the witnesses of its theorems.
use cookie_os.Base.{◌∷◌, [], ◌≡◌, refl, Bool, true, false, Outcome, ok}
use cookie_os.Interruptions.{
  Cpu, disable_interruptions, enable_interruptions, _disable_interruptions_internal,
  clear_interrupts, restore_interrupts, deactivate, restore_states,
}
use cookie_os.Interruptions.Guards.{System, Step, Reach, restored_without_guards}

abbrev awake : Cpu
awake = record { interrupts = true; yield_disabled = false; stack = [] }

-- Two guards are taken.
abbrev two_guards : System
two_guards =
    let (cpu1, first) = disable_interruptions awake in
    let (cpu2, second) = disable_interruptions cpu1 in
    record { cpu = cpu2; guards = second ∷ first ∷ [] }

two_guards-Reach : Reach true false two_guards
unfolding disable_interruptions _disable_interruptions_internal clear_interrupts
two_guards-Reach = Reach.next (Reach.next Reach.start Step.disable) Step.disable

-- The first one is dropped first: both stay on the stack.
abbrev first_inactive : Cpu
first_inactive = record {
  interrupts = false;
  yield_disabled = true;
  stack =
      record { active = true; state = record { interrupt_state = false; yield_state = true } }
      ∷ record { active = false; state = record { interrupt_state = true; yield_state = false } }
      ∷ [];
}

abbrev one_guard : System
one_guard = record { cpu = first_inactive; guards = 1 ∷ [] }

one_guard-Reach : Reach true false one_guard
unfolding disable_interruptions _disable_interruptions_internal clear_interrupts restore_interrupts
    enable_interruptions deactivate restore_states
one_guard-Reach =
    Reach.next two_guards-Reach (Step.drop_guard (1 ∷ []) [] 0 first_inactive refl refl)

abbrev no_guard : System
no_guard = record { cpu = awake; guards = [] }

no_guard-Reach : Reach true false no_guard
unfolding clear_interrupts restore_interrupts enable_interruptions deactivate restore_states
no_guard-Reach = Reach.next one_guard-Reach (Step.drop_guard [] [] 1 awake refl refl)

restored_without_guards_example : no_guard.cpu ≡ awake
restored_without_guards_example = restored_without_guards true false no_guard-Reach refl

abbrev count_guards : Cpu → Outcome (Cpu × Bool)
count_guards cpu = ok (cpu, cpu.yield_disabled)
