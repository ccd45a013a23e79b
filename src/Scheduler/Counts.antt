-- ===== src/Scheduler/Counts.antt =====
-- How often a task is in the places of multitasking/scheduler.rs and sync/waitlist.rs, and what each
-- operation does to that number.
use mathlib.Core.Path.{subst}
use cookie_os.Base.{
  ok_injective, ℕ, ◌+◌, ◌%◌, ◌^◌, ◌≤◌, ◌<◌, ◌≡◌, ◌==◌, ==_iff, refl, sym, ap, ◌∙◌, arith, inl, inr,
  Bool, true, false, Bool-cases, ltb, if◌then◌else◌, List, [], ◌∷◌, ◌++◌, map, All, sum_by,
  sum_by-append, sum_by-perm, Option, none, some, ok, sum_below, sum_below-update,
}
use cookie_os.Scheduler.{
  Task, WaitingListEntry, Cpu, SchedulerCommand, new_with_rsp, suspend, put_away, resume_next,
  resume_popped, enqueue, init_scheduler, push_task, _scheduler_tick,
}
use cookie_os.Scheduler.Tick.{tick_lem}
use cookie_os.Waitlist.{wait_command, notify_inner}
use cookie_os.Scheduler.Machine.{Machine, Step, ended_by}
use SchedulerCommand.{push_back, terminate, sleep_n_ticks, push_to_waiting_list}

unfoldable pub AllOnCpus : {S : Type 0} → ℕ → Machine S → Type 0
AllOnCpus cpu_count s = (w : ℕ) → All (λ entry. entry.cpu < cpu_count) (s.waiting w)

module _ (x : ℕ) where
  abbrev pub is_id : ℕ → ℕ
  is_id i = if i == x then 1 else 0

  pub is_id_self : is_id x ≡ 1
  is_id_self = ground (arith, ==_iff x x)

  -- 1 if the identifier was given to a task before NEXT_ID got to `n`.
  abbrev pub below : ℕ → ℕ
  below n = if ltb x n then 1 else 0

  pub below-le : (n : ℕ) → below n ≤ 1
  below-le n = ground arith

  below-next : (n : ℕ) → n + 1 < 2 ^ 64 → below ((n + 1) % 2 ^ 64) ≡ below n + is_id n
  below-next n few = ground arith

  sum_by-map :
      {A B : Type 0} (w : B → ℕ) (f : A → B) (xs : List A)
      → sum_by w (map f xs) ≡ sum_by (λ a. w (f a)) xs
  sum_by-map w f [] = refl
  sum_by-map w f (a ∷ xs) = omega (arith, sum_by-map w f xs)

  module _ {S : Type 0} where
    abbrev pub current_count : Option (Task S) → ℕ
    current_count none = 0
    current_count (some task) = is_id task.task_id

    abbrev pub queue_count : List (Task S) → ℕ
    queue_count tasks = sum_by (λ task. is_id task.task_id) tasks

    abbrev pub sleep_count : List (Task S × ℕ) → ℕ
    sleep_count entries = sum_by (λ entry. is_id entry.0.task_id) entries

    -- How often the task with the identifier is on a CPU: current, ready or asleep.
    abbrev pub cpu_count_of : Cpu S → ℕ
    cpu_count_of cpu =
        current_count cpu.current_task
        + queue_count cpu.state.run_queue
        + sleep_count cpu.state.sleeping

    abbrev pub waiting_count : List (WaitingListEntry S) → ℕ
    waiting_count entries = sum_by (λ entry. is_id entry.task.task_id) entries

    abbrev given_count : Option (List (WaitingListEntry S)) → ℕ
    given_count none = 0
    given_count (some entries) = waiting_count entries

    abbrev taken_count : SchedulerCommand S → ℕ
    taken_count (push_to_waiting_list (some entries)) = waiting_count entries
    taken_count _ = 0

    -- The tasks on the CPU and on the waiting list that comes back.
    abbrev result_count : Cpu S × Option (List (WaitingListEntry S)) → ℕ
    result_count r = cpu_count_of r.0 + given_count r.1

    put_away-count :
        (command : SchedulerCommand S) (c : ℕ) (task : Task S) (cpu : Cpu S)
        (r : Cpu S × Option (List (WaitingListEntry S)))
        → put_away command c task cpu ≡ ok r
        → result_count r + sum_by is_id (ended_by command (some task))
          ≡ cpu_count_of cpu + taken_count command + is_id task.task_id
    unfolding put_away
    put_away-count push_back c task cpu r h =
        subst (λ q. result_count q + 0 ≡ cpu_count_of cpu + 0 + is_id task.task_id)
          {x = (enqueue task cpu, none)} (ok_injective h)
          (omega (arith, sum_by-append (λ t. is_id t.task_id) cpu.state.run_queue (task ∷ [])))
    put_away-count terminate c task cpu r h =
        subst
          (λ q.
            result_count q + (is_id task.task_id + 0) ≡ cpu_count_of cpu + 0 + is_id task.task_id)
          {x = (record cpu { state = record cpu.state { deferred_drop = task ∷ [] } }, none)}
          (ok_injective h) (omega arith)
    put_away-count (sleep_n_ticks ticks) c task cpu r h =
        elim (Bool-cases (ltb (cpu.ticks + ticks) (2 ^ 64))) [
          | inl e ↦
              let slept = record cpu {
                state = record cpu.state {
                  sleeping = cpu.state.sleeping ++ (task, cpu.ticks + ticks) ∷ [];
                };
              } in
              subst (λ q. result_count q + 0 ≡ cpu_count_of cpu + 0 + is_id task.task_id)
                {x = (slept, none)} (ok_injective (rw (e) at h))
                (omega (
                  arith,
                  sum_by-append (λ t. is_id t.0.task_id) cpu.state.sleeping
                      ((task, cpu.ticks + ticks) ∷ []),
                ))
          | inr e ↦ absurd (let k = rw (e) at h in cc)
        ]
    put_away-count (push_to_waiting_list none) c task cpu r h = cc
    put_away-count (push_to_waiting_list (some entries)) c task cpu r h =
        subst
          (λ q. result_count q + 0 ≡ cpu_count_of cpu + waiting_count entries + is_id task.task_id)
          {x = (cpu, some (entries ++ record { cpu = c; task = task } ∷ []))} (ok_injective h)
          (omega (
            arith,
            sum_by-append (λ t. is_id t.task.task_id) entries
                (record { cpu = c; task = task } ∷ []),
          ))

    ended_by-rsp :
        (command : SchedulerCommand S) (task : Task S) (rsp : ℕ)
        → ended_by command (some (record task { rsp = rsp })) ≡ ended_by command (some task)
    ended_by-rsp push_back task rsp = refl
    ended_by-rsp terminate task rsp = refl
    ended_by-rsp (sleep_n_ticks _) task rsp = refl
    ended_by-rsp (push_to_waiting_list _) task rsp = refl

    suspend_current-count :
        (current : Option (Task S)) (command : SchedulerCommand S) (yield_disabled : Bool)
        (rsp c : ℕ) (cpu : Cpu S) (r : Cpu S × Option (List (WaitingListEntry S)))
        → cpu.current_task ≡ current
        → suspend yield_disabled command rsp c cpu ≡ ok r
        → result_count r + sum_by is_id (ended_by command current)
          ≡ cpu_count_of cpu + taken_count command
    unfolding suspend
    suspend_current-count none command true rsp c cpu r e h = cc
    suspend_current-count none command false rsp c cpu r e h = let k = rw (e) at h in cc
    suspend_current-count (some task) command true rsp c cpu r e h = cc
    suspend_current-count (some task) command false rsp c cpu r e h =
        let k = rw (e) at h in
        let n =
          put_away-count command c (record task { rsp = rsp })
            (record cpu { is_executing_task = false; current_task = none }) r k in
        omega (arith, n, ap current_count e, ap (sum_by is_id) (ended_by-rsp command task rsp))

    resume_popped-count :
        (queue : List (Task S)) (cpu : Cpu S)
        → cpu.current_task ≡ none
        → queue ≡ cpu.state.run_queue
        → cpu_count_of (resume_popped queue cpu) ≡ cpu_count_of cpu
    unfolding resume_popped
    resume_popped-count [] cpu h e = refl
    resume_popped-count (task ∷ rest) cpu h e = rw (h) (omega (arith, ap queue_count e))

    tick-count :
        (cpu cpu1 : Cpu S) → _scheduler_tick cpu ≡ ok cpu1 → cpu_count_of cpu1 ≡ cpu_count_of cpu
    tick-count cpu cpu1 h =
        let (woken, asleep, e, p, _, _) = tick_lem cpu in
        sym (ap cpu_count_of (ok_injective (sym e ∙ h)))
        ∙ omega (
          arith,
          sum_by-append (λ task. is_id task.task_id) cpu.state.run_queue
              (map (λ entry. entry.0) woken),
          sum_by-map (λ task. is_id task.task_id) (λ entry. entry.0) woken,
          sum_by-append (λ entry. is_id entry.0.task_id) woken asleep,
          sum_by-perm (λ entry. is_id entry.0.task_id) p,
        )

    -- Every task of the machine.
    abbrev pub machine_count : ℕ → ℕ → Machine S → ℕ
    machine_count cpu_count list_count s =
        sum_below cpu_count (λ c. cpu_count_of (s.cpus c))
        + sum_below list_count (λ w. waiting_count (s.waiting w))

    no_list :
        (current : Option (Task S)) (command : SchedulerCommand S) (yield_disabled : Bool)
        (rsp c : ℕ) (cpu cpu1 : Cpu S)
        → cpu.current_task ≡ current
        → suspend yield_disabled command rsp c cpu ≡ ok (cpu1, none)
        → taken_count command ≡ 0
    unfolding suspend put_away
    no_list current push_back yield_disabled rsp c cpu cpu1 e h = refl
    no_list current terminate yield_disabled rsp c cpu cpu1 e h = refl
    no_list current (sleep_n_ticks _) yield_disabled rsp c cpu cpu1 e h = refl
    no_list current (push_to_waiting_list none) yield_disabled rsp c cpu cpu1 e h = refl
    no_list none (push_to_waiting_list (some _)) true rsp c cpu cpu1 e h = cc
    no_list none (push_to_waiting_list (some _)) false rsp c cpu cpu1 e h =
        let k = rw (e) at h in cc
    no_list (some _) (push_to_waiting_list (some _)) true rsp c cpu cpu1 e h = cc
    no_list (some _) (push_to_waiting_list (some _)) false rsp c cpu cpu1 e h =
        let k = rw (e) at h in cc

    push_task-count :
        (task : Task S) (cpu : Cpu S)
        → cpu_count_of (push_task task cpu) ≡ cpu_count_of cpu + is_id task.task_id
    push_task-count task cpu =
        omega (arith, sum_by-append (λ t. is_id t.task_id) cpu.state.run_queue (task ∷ []))

    init_scheduler-count :
        (stack : Option S) (next_id : ℕ) (cpu : Cpu S)
        → cpu.current_task ≡ none
        → cpu_count_of (init_scheduler stack next_id cpu).0 ≡ cpu_count_of cpu + is_id next_id
    unfolding init_scheduler new_with_rsp
    init_scheduler-count stack next_id cpu h = omega (arith, ap current_count h)

    notify_inner-count :
        (cpu_count : ℕ) (entries : List (WaitingListEntry S)) (cpus : ℕ → Cpu S)
        → All (λ entry. entry.cpu < cpu_count) entries
        → sum_below cpu_count (λ c. cpu_count_of ((notify_inner entries cpus).0.1 c))
            + waiting_count (notify_inner entries cpus).0.0
          ≡ sum_below cpu_count (λ c. cpu_count_of (cpus c)) + waiting_count entries
    unfolding notify_inner
    notify_inner-count cpu_count [] cpus on = refl
    notify_inner-count cpu_count (entry ∷ rest) cpus on = omega (
      arith,
      sum_below-update cpu_count_of cpu_count cpus entry.cpu (push_task entry.task (cpus entry.cpu))
          on.0,
      push_task-count entry.task (cpus entry.cpu),
    )

    module _ (cpu_count list_count : ℕ) where
      pub Step-count :
          {s t : Machine S} {more : List ℕ}
          → AllOnCpus cpu_count s
          → Step cpu_count list_count s t more
          → machine_count cpu_count list_count t + sum_by is_id more + below s.next_id
            ≡ machine_count cpu_count list_count s + below t.next_id
      unfolding AllOnCpus resume_next new_with_rsp init_scheduler
      Step-count {s} on (Step.suspends c yield_disabled command rsp {cpu} lt h) = omega (
        arith,
        sum_below-update cpu_count_of cpu_count s.cpus c cpu lt,
        suspend_current-count (s.cpus c).current_task command yield_disabled rsp c (s.cpus c)
            (cpu, none) refl h,
        no_list (s.cpus c).current_task command yield_disabled rsp c (s.cpus c) cpu refl h,
      )
      Step-count {s} on (Step.waits c w yield_disabled rsp {cpu} {entries} lt lw h) = omega (
        arith,
        sum_below-update cpu_count_of cpu_count s.cpus c cpu lt,
        sum_below-update waiting_count list_count s.waiting w entries lw,
        suspend_current-count (s.cpus c).current_task (wait_command (s.waiting w)) yield_disabled
            rsp c (s.cpus c) (cpu, some entries) refl h,
      )
      Step-count {s} on (Step.resumes c lt h) = omega (
        arith,
        sum_below-update cpu_count_of cpu_count s.cpus c
            (resume_popped (s.cpus c).state.run_queue (s.cpus c)) lt,
        resume_popped-count (s.cpus c).state.run_queue (s.cpus c) h refl,
      )
      Step-count {s} on (Step.ticks c {cpu} lt h) = omega (
        arith,
        sum_below-update cpu_count_of cpu_count s.cpus c cpu lt,
        tick-count (s.cpus c) cpu h,
      )
      Step-count {s} on (Step.spawns c task_type rsp stack lt few) = omega (
        arith,
        sum_below-update cpu_count_of cpu_count s.cpus c
            (push_task (new_with_rsp task_type rsp stack s.next_id).0 (s.cpus c)) lt,
        push_task-count (new_with_rsp task_type rsp stack s.next_id).0 (s.cpus c),
        below-next s.next_id few,
      )
      Step-count {s} on (Step.boots c stack lt h few) = omega (
        arith,
        sum_below-update cpu_count_of cpu_count s.cpus c
            (init_scheduler stack s.next_id (s.cpus c)).0 lt,
        init_scheduler-count stack s.next_id (s.cpus c) h,
        below-next s.next_id few,
      )
      Step-count {s} on (Step.notifies w lw) = omega (
        arith,
        notify_inner-count cpu_count (s.waiting w) s.cpus (on w),
        sum_below-update waiting_count list_count s.waiting w
            (notify_inner (s.waiting w) s.cpus).0.0 lw,
      )
