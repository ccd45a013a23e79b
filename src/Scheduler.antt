-- ===== src/Scheduler.antt =====
-- kernel/rust/src/multitasking/scheduler.rs and task.rs: the run queue of each CPU, what a task that
-- yields becomes, and sleeping tasks. `Cpu` is what one CPU keeps: _CURRENT_TASK, _SCHEDULER_STATE,
-- _SCHEDULER_TICKS and _IS_EXECUTING_TASK. A `VecDeque` is a list, and every function is what runs
-- while its lock is held. A context switch is a step of its own (Scheduler/Machine.antt): the saved
-- stack pointer is a number, and the stack of a task a value of the type `S` that no function reads.
pub mod Tick
pub mod Machine
mod Counts
pub mod Conservation
mod Tests
use cookie_os.Base.{
  ℕ, zero, suc, ◌+◌, ◌%◌, ◌^◌, Bool, true, false, ltb, leb, not, if◌then◌else◌, List, [], ◌∷◌, ◌++◌,
  length, get_elem?, swap_remove, Option, none, some, Outcome, ok, panic, ◌>>=◌, ◌>>◌, assert,
  expect,
}

pub data TaskType : Type 0 where
  kernel_task : TaskType

pub record Task (S : Type 0) : Type 0 where
  pub task_id : ℕ
  pub task_type : TaskType
  pub rsp : ℕ
  pub stack_allocation : Option S

-- sync/waitlist.rs
pub record WaitingListEntry (S : Type 0) : Type 0 where
  pub task : Task S
  pub cpu : ℕ

pub record SchedulerState (S : Type 0) : Type 0 where
  pub run_queue : List (Task S)
  pub sleeping : List (Task S × ℕ)
  pub deferred_drop : List (Task S)

pub record Cpu (S : Type 0) : Type 0 where
  pub current_task : Option (Task S)
  pub state : SchedulerState S
  pub ticks : ℕ
  pub is_executing_task : Bool

-- The cell of `PushToWaitingList` holds the guard of a waiting list, here the list itself.
pub data SchedulerCommand (S : Type 0) : Type 0 where
  push_back terminate : SchedulerCommand S
  sleep_n_ticks : ℕ → SchedulerCommand S
  push_to_waiting_list : Option (List (WaitingListEntry S)) → SchedulerCommand S

module _ {S : Type 0} where
  -- `Task::new_with_rsp`, with NEXT_ID before and after.
  unfoldable pub new_with_rsp : TaskType → ℕ → Option S → ℕ → Task S × ℕ
  new_with_rsp task_type rsp stack_allocation next_id = (
    record {
      task_id = next_id;
      task_type = task_type;
      rsp = rsp;
      stack_allocation = stack_allocation;
    },
    (next_id + 1) % 2 ^ 64,
  )

  abbrev pub enqueue : Task S → Cpu S → Cpu S
  enqueue task cpu = record cpu {
    state = record cpu.state { run_queue = cpu.state.run_queue ++ task ∷ [] };
  }

  -- The `match` of `schedule`: what becomes of the task that yields. A waiting list comes back with
  -- its new entry.
  unfoldable pub put_away :
      SchedulerCommand S → ℕ → Task S → Cpu S → Outcome (Cpu S × Option (List (WaitingListEntry S)))
  put_away push_back cpu_num task cpu = ok (enqueue task cpu, none)
  put_away terminate cpu_num task cpu =
      ok (record cpu { state = record cpu.state { deferred_drop = task ∷ [] } }, none)
  put_away (sleep_n_ticks ticks) cpu_num task cpu =
      let wake_at = cpu.ticks + ticks in
      do
        assert (ltb wake_at (2 ^ 64))
        let sleeping = cpu.state.sleeping ++ (task, wake_at) ∷ []
        ok (record cpu { state = record cpu.state { sleeping = sleeping } }, none)
  put_away (push_to_waiting_list waiting) cpu_num task cpu = do
    entries ← expect waiting
    ok (cpu, some (entries ++ record { cpu = cpu_num; task = task } ∷ []))

  -- `schedule` up to the choice of the next task.
  unfoldable pub suspend :
      Bool
      → SchedulerCommand S
      → ℕ
      → ℕ
      → Cpu S
      → Outcome (Cpu S × Option (List (WaitingListEntry S)))
  unfolding put_away
  suspend yield_disabled command rsp cpu_num cpu = do
    assert (not yield_disabled)
    let cpu1 = record cpu { is_executing_task = false }
    current_task ← expect cpu1.current_task
    let cpu2 = record cpu1 { current_task = none }
    put_away command cpu_num (record current_task { rsp = rsp }) cpu2

  pub resume_popped : List (Task S) → Cpu S → Cpu S
  resume_popped [] cpu = cpu
  resume_popped (next_task ∷ rest) cpu = record {
    current_task = some next_task;
    state = record cpu.state { run_queue = rest };
    ticks = cpu.ticks;
    is_executing_task = true;
  }

  -- A turn of the loop of `schedule`, with `resume_context` and `__resume_callback`.
  unfoldable pub resume_next : Cpu S → Cpu S
  unfolding resume_popped
  resume_next cpu = resume_popped cpu.state.run_queue cpu

  unfoldable pub init_scheduler : Option S → ℕ → Cpu S → Cpu S × ℕ
  unfolding new_with_rsp
  init_scheduler stack next_id cpu =
      let (boot_task, next_id1) = new_with_rsp kernel_task 0 stack next_id in
      (record cpu { current_task = some boot_task }, next_id1)

  -- `push_task`, and `push_task_to` on the CPU that it names.
  abbrev pub push_task : Task S → Cpu S → Cpu S
  push_task task cpu = enqueue task cpu

  -- The loop of `_scheduler_tick` over the indices below `i`, downwards.
  unfoldable pub wake :
      ℕ → ℕ → List (Task S × ℕ) → List (Task S) → Outcome (List (Task S × ℕ) × List (Task S))
  wake current_ticks zero sleeping run_queue = ok (sleeping, run_queue)
  wake current_ticks (suc i) sleeping run_queue = do
    (task, wake_at) ← expect (get_elem? sleeping i)
    let later = wake current_ticks i sleeping run_queue
    let taken = do rest ← swap_remove sleeping i; wake current_ticks i rest (run_queue ++ task ∷ [])
    if leb wake_at current_ticks then taken else later

  unfoldable pub _scheduler_tick : Cpu S → Outcome (Cpu S)
  unfolding wake
  _scheduler_tick cpu = do
    let current_ticks = (cpu.ticks + 1) % 2 ^ 64
    (sleeping, run_queue) ←
        wake current_ticks (length cpu.state.sleeping) cpu.state.sleeping cpu.state.run_queue
    let state = record cpu.state { sleeping = sleeping; run_queue = run_queue }
    ok (record cpu { state = state; ticks = current_ticks })

  -- `SchedulerState::default`, and a CPU that has not run yet.
  abbrev pub new_cpu : Cpu S
  new_cpu = record {
    current_task = none;
    state = record { run_queue = []; sleeping = []; deferred_drop = [] };
    ticks = 0;
    is_executing_task = false;
  }
