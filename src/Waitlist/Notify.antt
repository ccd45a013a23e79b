-- ===== src/Waitlist/Notify.antt =====
-- What sync/waitlist.rs wakes.
use mathlib.Core.List.{append-nil, append_assoc}
use cookie_os.Base.{
  ℕ, ◌≡◌, refl, sym, ap, ◌∙◌, inl, inr, Bool-cases, ==_iff, ◌==◌, if◌then◌else◌, List, [], ◌∷◌,
  ◌++◌, update, ok, fun_ext,
}
use cookie_os.Scheduler.{Task, WaitingListEntry, Cpu, push_task}
use cookie_os.Waitlist.{notify_inner, notify_loop, notify_all}

module _ {S : Type 0} where
  -- The tasks that wait and belong to the CPU, the longest waiting first.
  abbrev pub tasks_for : ℕ → List (WaitingListEntry S) → List (Task S)
  tasks_for cpu [] = []
  tasks_for cpu (entry ∷ rest) =
      if entry.cpu == cpu then entry.task ∷ tasks_for cpu rest else tasks_for cpu rest

  abbrev pub with_tasks : Cpu S → List (Task S) → Cpu S
  with_tasks cpu tasks = record cpu {
    state = record cpu.state { run_queue = cpu.state.run_queue ++ tasks };
  }

  with_tasks-push_task :
      (entry : WaitingListEntry S) (rest : List (WaitingListEntry S)) (cpus : ℕ → Cpu S) (c : ℕ)
      → with_tasks
          (update cpus entry.cpu (push_task entry.task (cpus entry.cpu)) c)
          (tasks_for c rest)
        ≡ with_tasks (cpus c) (tasks_for c (entry ∷ rest))
  with_tasks-push_task entry rest cpus c = elim (Bool-cases (entry.cpu == c)) [
    | inl e ↦
        rw (e, ap cpus ((==_iff entry.cpu c).0 e))
          (ap (λ q. record (cpus c) { state = record (cpus c).state { run_queue = q } })
            (append_assoc (cpus c).state.run_queue (entry.task ∷ []) (tasks_for c rest)))
    | inr e ↦ rw (e) refl
  ]

  -- `notify_all` ends, with an empty list: every CPU gets the tasks that wait and belong to it at
  -- the back of its run queue, in the order in which they began to wait, and nothing else.
  pub notify_all_lem :
      (entries : List (WaitingListEntry S)) (cpus : ℕ → Cpu S)
      → notify_all entries cpus ≡ ok ([], λ c. with_tasks (cpus c) (tasks_for c entries))
  unfolding notify_all notify_loop notify_inner
  notify_all_lem [] cpus =
      ap (λ f. ok ([], f))
        (fun_ext (λ c.
          ap (λ q. record (cpus c) { state = record (cpus c).state { run_queue = q } })
            (sym (append-nil (cpus c).state.run_queue))))
  notify_all_lem (entry ∷ rest) cpus =
      notify_all_lem rest (update cpus entry.cpu (push_task entry.task (cpus entry.cpu)))
      ∙ ap (λ f. ok ([], f)) (fun_ext (λ c. with_tasks-push_task entry rest cpus c))
