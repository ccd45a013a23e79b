-- ===== src/Waitlist/Tests.antt =====
-- The witness of the theorem on sync/waitlist.rs.
use cookie_os.Base.{ℕ, ◌≡◌, [], ◌∷◌, List, none, ok}
use cookie_os.Scheduler.{Task, kernel_task, WaitingListEntry, new_cpu}
use cookie_os.Waitlist.{notify_all}
use cookie_os.Waitlist.Notify.{tasks_for, with_tasks, notify_all_lem}

abbrev waiting_task : ℕ → Task (Unit {0})
waiting_task id = record { task_id = id; task_type = kernel_task; rsp = 0; stack_allocation = none }

-- Two tasks of CPU 1 wait, and one of CPU 0.
abbrev three_waiting : List (WaitingListEntry (Unit {0}))
three_waiting =
    record { task = waiting_task 5; cpu = 1 }
    ∷ record { task = waiting_task 6; cpu = 0 }
    ∷ record { task = waiting_task 7; cpu = 1 }
    ∷ []

notify_all_lem_example :
    notify_all three_waiting (λ _. new_cpu)
    ≡ ok ([], λ c. with_tasks new_cpu (tasks_for c three_waiting))
notify_all_lem_example = notify_all_lem three_waiting (λ _. new_cpu)
