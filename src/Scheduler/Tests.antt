-- ===== src/Scheduler/Tests.antt =====
-- Runs of multitasking/scheduler.rs at concrete states, and the witnesses of its theorems. Stacks
-- are of the unit type.
use mathlib.Core.List.{Permᴰ}
use cookie_os.Base.{
  arith, ℕ, swap_remove, update, ◌+◌, ◌≡◌, refl, true, false, leb, List, [], ◌∷◌, ◌++◌, map, All,
  sum_by, none, some, ok,
}
use cookie_os.Scheduler.{
  Task, kernel_task, Cpu, new_cpu, new_with_rsp, init_scheduler, push_task, resume_next, suspend,
  put_away, SchedulerCommand, _scheduler_tick, wake,
}
use cookie_os.Scheduler.Tick.{tick_lem}
use cookie_os.Scheduler.Machine.{Machine, Step, Reach}
use cookie_os.Scheduler.Counts.{is_id, machine_count}
use cookie_os.Scheduler.Conservation.{tasks_conserved}

abbrev Stack : Type 0
Stack = Unit {0}

abbrev task : ℕ → Task Stack
task id = record { task_id = id; task_type = kernel_task; rsp = 0; stack_allocation = none }

-- Three tasks sleep, until 5, 9 and 4.
abbrev sleepers : Cpu Stack
sleepers = record {
  current_task = some (task 0);
  state = record {
    run_queue = task 1 ∷ [];
    sleeping = (task 2, 5) ∷ (task 3, 9) ∷ (task 4, 4) ∷ [];
    deferred_drop = [];
  };
  ticks = 4;
  is_executing_task = true;
}

-- The tick to 5 wakes two of them, the last first.
tick-sleepers :
    _scheduler_tick sleepers
    ≡ ok (record sleepers {
      state = record {
        run_queue = task 1 ∷ task 4 ∷ task 2 ∷ [];
        sleeping = (task 3, 9) ∷ [];
        deferred_drop = [];
      };
      ticks = 5;
    })
unfolding _scheduler_tick wake swap_remove
tick-sleepers = refl

tick_lem_example :
    (woken asleep : List (Task Stack × ℕ)) × (_scheduler_tick sleepers
      ≡ ok (record {
        current_task = some (task 0);
        state = record {
          run_queue = task 1 ∷ map (λ entry. entry.0) woken;
          sleeping = asleep;
          deferred_drop = [];
        };
        ticks = 5;
        is_executing_task = true;
      }))
    × Permᴰ ((task 2, 5) ∷ (task 3, 9) ∷ (task 4, 4) ∷ []) (woken ++ asleep)
    × All (λ entry. leb entry.1 5 ≡ true) woken
    × All (λ entry. leb entry.1 5 ≡ false) asleep
tick_lem_example = tick_lem sleepers

-- CPU 0 boots, and makes a task that CPU 1 runs; CPU 0 then ends its own.
abbrev fresh : Machine Stack
fresh = record { cpus = λ _. new_cpu; waiting = λ _. []; next_id = 0 }

abbrev booted : Machine Stack
booted = record {
  cpus = update fresh.cpus 0 (init_scheduler none 0 new_cpu).0;
  waiting = fresh.waiting;
  next_id = (init_scheduler {S = Stack} none 0 new_cpu).1;
}

abbrev spawned : Machine Stack
spawned = record {
  cpus = update booted.cpus 1 (push_task (new_with_rsp kernel_task 7 none 1).0 new_cpu);
  waiting = fresh.waiting;
  next_id = (new_with_rsp {S = Stack} kernel_task 7 none 1).1;
}

abbrev running : Machine Stack
running = record spawned { cpus = update spawned.cpus 1 (resume_next (spawned.cpus 1)) }

running-Reach : Reach 2 1 running []
unfolding init_scheduler new_with_rsp
running-Reach =
    Reach.next {s = spawned} {ended = []} {more = []}
      (Reach.next {s = booted} {ended = []} {more = []}
        (Reach.next {s = fresh} {ended = []} {more = []} Reach.start
          (Step.boots 0 none (omega arith) refl (omega arith)))
        (Step.spawns 1 kernel_task 7 none (omega arith) (omega arith)))
      (Step.resumes 1 (omega arith) refl)

abbrev one_ended : Cpu Stack
one_ended = record {
  current_task = none;
  state = record {
    run_queue = [];
    sleeping = [];
    deferred_drop = record (task 0) { rsp = 3 } ∷ [];
  };
  ticks = 0;
  is_executing_task = false;
}

one_ended-Reach : Reach 2 1 (record running { cpus = update running.cpus 0 one_ended }) (0 ∷ [])
unfolding init_scheduler new_with_rsp suspend put_away
one_ended-Reach =
    Reach.next {s = running} {ended = []} {more = 0 ∷ []} running-Reach
      (Step.suspends 0 false SchedulerCommand.terminate 3 {cpu = one_ended} (omega arith) refl)

tasks_conserved_example :
    machine_count 0 2 1 (record running { cpus = update running.cpus 0 one_ended })
      + sum_by (is_id 0) (0 ∷ [])
    ≡ 1
unfolding init_scheduler new_with_rsp
tasks_conserved_example = tasks_conserved 2 1 one_ended-Reach 0
