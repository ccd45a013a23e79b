-- ===== src/Waitlist.antt =====
-- kernel/rust/src/sync/waitlist.rs: tasks that wait on a list until they are notified. A list is
-- what its lock protects, and each function is what runs while the lock is held, by this module or,
-- from `wait` on, by the scheduler (the command `push_to_waiting_list`).
pub mod Notify
pub mod Wakeup
pub mod Woken
mod Tests
use cookie_os.Base.{
  ℕ, zero, suc, Bool, true, false, if◌then◌else◌, List, [], ◌∷◌, length, update, Outcome, ok,
  out_of_fuel, some,
}
use cookie_os.Scheduler.{WaitingListEntry, Cpu, SchedulerCommand, push_task}

module _ {S : Type 0} where
  -- What `wait_inner` gives to the scheduler.
  abbrev pub wait_command : List (WaitingListEntry S) → SchedulerCommand S
  wait_command entries = SchedulerCommand.push_to_waiting_list (some entries)

  unfoldable pub notify_inner :
      List (WaitingListEntry S) → (ℕ → Cpu S) → (List (WaitingListEntry S) × (ℕ → Cpu S)) × Bool
  notify_inner [] cpus = (([], cpus), false)
  notify_inner (entry ∷ rest) cpus =
      ((rest, update cpus entry.cpu (push_task entry.task (cpus entry.cpu))), true)

  -- `while self.notify_inner(&mut list){}`
  unfoldable pub notify_loop :
      ℕ
      → List (WaitingListEntry S)
      → (ℕ → Cpu S)
      → Outcome (List (WaitingListEntry S) × (ℕ → Cpu S))
  unfolding notify_inner
  notify_loop zero entries cpus = out_of_fuel
  notify_loop (suc fuel) entries cpus =
      let (state, woken) = notify_inner entries cpus in
      let again = notify_loop fuel state.0 state.1 in if woken then again else ok state

  -- One turn for each entry and one that finds the list empty.
  unfoldable pub notify_all :
      List (WaitingListEntry S) → (ℕ → Cpu S) → Outcome (List (WaitingListEntry S) × (ℕ → Cpu S))
  unfolding notify_loop
  notify_all entries cpus = notify_loop (suc (length entries)) entries cpus
