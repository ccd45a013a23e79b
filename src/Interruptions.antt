-- ===== src/Interruptions.antt =====
-- kernel/rust/src/multitasking/interruptions.rs: interruptions (interrupts and hidden yields to the
-- scheduler) are off on a CPU while a guard is held, and guards may be dropped in any order. `Cpu`
-- is the state of one CPU: its interrupt flag, SCHEDULER_YIELD_DISABLED and
-- CURRENT_NOINTERRUPTIONS_STATE, a `Vec` kept here with its last element first. A
-- `NoInterruptionsGuard` is its index. The lock around the `Vec` is left out: interrupts are off
-- while it is held, and it belongs to this CPU. multitasking/arch/x86_64/enable_interrupts.rs gives
-- `clear_interrupts` and `restore_interrupts`.
mod Stack
pub mod Guards
mod Tests
use cookie_os.Base.{
  ℕ, Bool, true, false, List, [], ◌∷◌, length, ◌==◌, if◌then◌else◌, Outcome, ok, panic, ◌>>=◌,
}

pub record NoInterruptionsState : Type 0 where
  pub interrupt_state : Bool
  pub yield_state : Bool

pub record NoInterruptionsStateContainer : Type 0 where
  pub active : Bool
  pub state : NoInterruptionsState

pub record Cpu : Type 0 where
  pub interrupts : Bool
  pub yield_disabled : Bool
  pub stack : List NoInterruptionsStateContainer

unfoldable pub clear_interrupts : Cpu → Cpu × Bool
clear_interrupts cpu = (record cpu { interrupts = false }, cpu.interrupts)

unfoldable pub restore_interrupts : Bool → Cpu → Cpu
restore_interrupts state cpu = if state then record cpu { interrupts = true } else cpu

unfoldable pub _disable_interruptions_internal : Cpu → Cpu × NoInterruptionsState
unfolding clear_interrupts
_disable_interruptions_internal cpu =
    let (cpu1, interrupt_state) = clear_interrupts cpu in
    (
      record cpu1 { yield_disabled = true },
      record { interrupt_state = interrupt_state; yield_state = cpu1.yield_disabled },
    )

unfoldable pub disable_interruptions : Cpu → Cpu × ℕ
unfolding _disable_interruptions_internal
disable_interruptions cpu =
    let (cpu1, ni_state) = _disable_interruptions_internal cpu in
    (
      record cpu1 { stack = record { active = true; state = ni_state } ∷ cpu1.stack },
      length cpu1.stack,
    )

-- `guard[index].active = false`
unfoldable pub deactivate :
    ℕ → List NoInterruptionsStateContainer → Outcome (List NoInterruptionsStateContainer)
deactivate index [] = panic
deactivate index (sc ∷ rest) =
    let below = deactivate index rest in
    if index == length rest
    then ok (record sc { active = false } ∷ rest)
    else (do rest1 ← below; ok (sc ∷ rest1))

-- The loop of `enable_interruptions`, on the stack that is left: what is popped sets
-- SCHEDULER_YIELD_DISABLED and the interrupt state that comes back at the end.
unfoldable pub restore_states : List NoInterruptionsStateContainer → Cpu → Bool → Cpu × Bool
restore_states [] cpu interrupt_state = (record cpu { stack = [] }, interrupt_state)
restore_states (sc ∷ rest) cpu interrupt_state =
    let popped =
      restore_states rest (record cpu { yield_disabled = sc.state.yield_state })
        sc.state.interrupt_state in
    if sc.active then (record cpu { stack = sc ∷ rest }, interrupt_state) else popped

unfoldable pub enable_interruptions : Cpu → ℕ → Outcome Cpu
unfolding clear_interrupts deactivate restore_states restore_interrupts
enable_interruptions cpu index = do
  let (cpu1, interrupt_state) = clear_interrupts cpu
  stack ← deactivate index cpu1.stack
  let (cpu2, interrupt_state1) = restore_states stack cpu1 interrupt_state
  ok (restore_interrupts interrupt_state1 cpu2)

-- The closure is a function of the CPU's state that may panic.
unfoldable pub _without_interruptions_noalloc {ℓ} :
    {R : Type ℓ} → (Cpu → Outcome (Cpu × R)) → Cpu → Outcome (Cpu × R)
unfolding _disable_interruptions_internal restore_interrupts
_without_interruptions_noalloc closure cpu = do
  let (cpu1, state) = _disable_interruptions_internal cpu
  (cpu2, r) ← closure cpu1
  let cpu3 = record cpu2 { yield_disabled = state.yield_state }
  ok (restore_interrupts state.interrupt_state cpu3, r)
