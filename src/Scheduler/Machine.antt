-- ===== src/Scheduler/Machine.antt =====
-- The scheduler of every CPU and the waiting lists (multitasking/scheduler.rs, sync/waitlist.rs) as
-- one machine, whose steps are the calls of the tasks, of the timer and of the schedulers, in any
-- order. A call that takes a lock is one step.
use cookie_os.Base.{
  ℕ, ◌+◌, ◌^◌, ◌<◌, ◌≡◌, Bool, List, [], ◌∷◌, ◌++◌, update, Option, none, some, ok,
}
use cookie_os.Scheduler.{
  Task, TaskType, WaitingListEntry, Cpu, SchedulerCommand, new_with_rsp, suspend, resume_next,
  init_scheduler, push_task, _scheduler_tick, new_cpu,
}
use cookie_os.Waitlist.{wait_command, notify_inner}

-- `next_id` is NEXT_ID.
pub record Machine (S : Type 0) : Type 0 where
  pub cpus : ℕ → Cpu S
  pub waiting : ℕ → List (WaitingListEntry S)
  pub next_id : ℕ

-- The task that a command ends.
abbrev pub ended_by : {S : Type 0} → SchedulerCommand S → Option (Task S) → List ℕ
ended_by SchedulerCommand.terminate (some task) = task.task_id ∷ []
ended_by _ _ = []

module _ {S : Type 0} (cpu_count list_count : ℕ) where
  -- The list is the identifiers of the tasks that the step ends. A `wait` (also through `wait_ifnt`
  -- and its loops) is `waits`, and `notify_all` is as many steps `notifies`. Fewer than 2^64 tasks
  -- are made.
  pub data Step (s : Machine S) : Machine S → List ℕ → Type 0 where
    suspends :
        (c : ℕ) (yield_disabled : Bool) (command : SchedulerCommand S) (rsp : ℕ) {cpu : Cpu S}
        → c < cpu_count
        → suspend yield_disabled command rsp c (s.cpus c) ≡ ok (cpu, none)
        → Step s
            (record s { cpus = update s.cpus c cpu })
            (ended_by command (s.cpus c).current_task)
    waits :
        (c w : ℕ) (yield_disabled : Bool) (rsp : ℕ) {cpu : Cpu S}
        {entries : List (WaitingListEntry S)}
        → c < cpu_count
        → w < list_count
        → suspend yield_disabled (wait_command (s.waiting w)) rsp c (s.cpus c)
          ≡ ok (cpu, some entries)
        → Step s (record s { cpus = update s.cpus c cpu; waiting = update s.waiting w entries }) []
    resumes :
        (c : ℕ)
        → c < cpu_count
        → (s.cpus c).current_task ≡ none
        → Step s (record s { cpus = update s.cpus c (resume_next (s.cpus c)) }) []
    ticks :
        (c : ℕ) {cpu : Cpu S}
        → c < cpu_count
        → _scheduler_tick (s.cpus c) ≡ ok cpu
        → Step s (record s { cpus = update s.cpus c cpu }) []
    spawns :
        (c : ℕ) (task_type : TaskType) (rsp : ℕ) (stack : Option S)
        → c < cpu_count
        → s.next_id + 1 < 2 ^ 64
        → Step s
            (record s {
              cpus =
                  update s.cpus c
                    (push_task (new_with_rsp task_type rsp stack s.next_id).0 (s.cpus c));
              next_id = (new_with_rsp task_type rsp stack s.next_id).1;
            })
            []
    boots :
        (c : ℕ) (stack : Option S)
        → c < cpu_count
        → (s.cpus c).current_task ≡ none
        → s.next_id + 1 < 2 ^ 64
        → Step s
            (record s {
              cpus = update s.cpus c (init_scheduler stack s.next_id (s.cpus c)).0;
              next_id = (init_scheduler stack s.next_id (s.cpus c)).1;
            })
            []
    notifies :
        (w : ℕ)
        → w < list_count
        → Step s
            (record s {
              cpus = (notify_inner (s.waiting w) s.cpus).0.1;
              waiting = update s.waiting w (notify_inner (s.waiting w) s.cpus).0.0;
            })
            []

  -- What a machine without tasks reaches, and the tasks that have ended on the way.
  pub data Reach : Machine S → List ℕ → Type 0 where
    start : Reach (record { cpus = λ _. new_cpu; waiting = λ _. []; next_id = 0 }) []
    next :
        {s t : Machine S} {ended more : List ℕ}
        → Reach s ended
        → Step s t more
        → Reach t (more ++ ended)
