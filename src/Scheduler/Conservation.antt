-- ===== src/Scheduler/Conservation.antt =====
-- Where the tasks of multitasking/scheduler.rs are: no step loses one or makes two of it.
use mathlib.Core.Path.{subst}
use cookie_os.Base.{
  ◌≢◌, ℕ, ◌+◌, ◌<◌, ◌≡◌, ◌==◌, refl, sym, ap, arith, inl, inr, Bool, true, false, Bool-cases, List,
  [], ◌∷◌, ◌++◌, All, All-append, sum_by, sum_by-append, update, Option, none, some, ok,
  sum_below-zero, two_terms-le-sum_below,
}
use cookie_os.Scheduler.{Task, WaitingListEntry, Cpu, suspend, put_away}
use cookie_os.Scheduler.Counts.{
  is_id, below, below-le, is_id_self, current_count, cpu_count_of, machine_count, AllOnCpus,
  Step-count,
}
use cookie_os.Waitlist.{wait_command, notify_inner}
use cookie_os.Scheduler.Machine.{Machine, Step, Reach}

-- What a command that waits gives back: the list with an entry of this CPU at its end.
module _ {S : Type 0} where
  suspend_waits :
      (current : Option (Task S)) (entries new : List (WaitingListEntry S)) (yield_disabled : Bool)
      (rsp c : ℕ) (cpu cpu1 : Cpu S)
      → cpu.current_task ≡ current
      → suspend yield_disabled (wait_command entries) rsp c cpu ≡ ok (cpu1, some new)
      → (task : Task S) × (new ≡ entries ++ record { task = task; cpu = c } ∷ [])
  unfolding suspend put_away
  suspend_waits none entries new true rsp c cpu cpu1 e h = cc
  suspend_waits none entries new false rsp c cpu cpu1 e h = let k = rw (e) at h in cc
  suspend_waits (some task) entries new true rsp c cpu cpu1 e h = cc
  suspend_waits (some task) entries new false rsp c cpu cpu1 e h =
      (record task { rsp = rsp }, let k = rw (e) at h in cc)

  written-AllOnCpus :
      (cpu_count : ℕ) (waiting : ℕ → List (WaitingListEntry S)) (w : ℕ)
      (entries : List (WaitingListEntry S))
      → ((v : ℕ) → All (λ entry. entry.cpu < cpu_count) (waiting v))
      → All (λ entry. entry.cpu < cpu_count) entries
      → (v : ℕ) → All (λ entry. entry.cpu < cpu_count) (update waiting w entries v)
  written-AllOnCpus cpu_count waiting w entries on h v = elim (Bool-cases (w == v)) [
    | inl e ↦ rw (e) h
    | inr e ↦ rw (e) (on v)
  ]

  notify_inner-AllOnCpus :
      (cpu_count : ℕ) (entries : List (WaitingListEntry S)) (cpus : ℕ → Cpu S)
      → All (λ entry. entry.cpu < cpu_count) entries
      → All (λ entry. entry.cpu < cpu_count) (notify_inner entries cpus).0.0
  unfolding notify_inner
  notify_inner-AllOnCpus cpu_count [] cpus h = tt
  notify_inner-AllOnCpus cpu_count (entry ∷ rest) cpus h = h.1

  Step-AllOnCpus :
      (cpu_count list_count : ℕ) {s t : Machine S} {more : List ℕ}
      → AllOnCpus cpu_count s
      → Step cpu_count list_count s t more
      → AllOnCpus cpu_count t
  unfolding AllOnCpus
  Step-AllOnCpus n m on (Step.suspends _ _ _ _ _ _) = on
  Step-AllOnCpus n m {s} on (Step.waits c w yield_disabled rsp {cpu} {entries} lt lw h) =
      let (task, e) =
        suspend_waits (s.cpus c).current_task (s.waiting w) entries yield_disabled rsp c (s.cpus c)
          cpu refl h in
      written-AllOnCpus n s.waiting w entries on (
        subst (All (λ entry. entry.cpu < n)) (sym e) (
          All-append (λ entry. entry.cpu < n) (s.waiting w) (record { task = task; cpu = c } ∷ [])
            (on w) (lt, tt)))
  Step-AllOnCpus n m on (Step.resumes _ _ _) = on
  Step-AllOnCpus n m on (Step.ticks _ _ _) = on
  Step-AllOnCpus n m on (Step.spawns _ _ _ _ _ _) = on
  Step-AllOnCpus n m on (Step.boots _ _ _ _ _) = on
  Step-AllOnCpus n m {s} on (Step.notifies w lw) =
      written-AllOnCpus n s.waiting w (notify_inner (s.waiting w) s.cpus).0.0 on
        (notify_inner-AllOnCpus n (s.waiting w) s.cpus (on w))

  module _ (cpu_count list_count : ℕ) where
    Reach-AllOnCpus :
        {s : Machine S} {ended : List ℕ}
        → Reach cpu_count list_count s ended
        → AllOnCpus cpu_count s
    unfolding AllOnCpus
    Reach-AllOnCpus Reach.start = λ w. tt
    Reach-AllOnCpus (Reach.next r step) =
        Step-AllOnCpus cpu_count list_count (Reach-AllOnCpus r) step

    -- Whatever the tasks, the timer and the schedulers did, in whatever order: each task that was
    -- made and has not ended is in exactly one place, and no other is in any. The places are, of
    -- every CPU, the current task, the run queue and the sleeping tasks, and the waiting lists.
    pub tasks_conserved :
        {s : Machine S} {ended : List ℕ}
        → Reach cpu_count list_count s ended
        → (x : ℕ)
        → machine_count x cpu_count list_count s + sum_by (is_id x) ended ≡ below x s.next_id
    tasks_conserved Reach.start x =
        ground (arith, sum_below-zero cpu_count, sum_below-zero list_count)
    tasks_conserved (Reach.next {ended = ended} {more = more} r step) x = omega (
      arith,
      tasks_conserved r x,
      Step-count x cpu_count list_count (Reach-AllOnCpus r) step,
      sum_by-append (is_id x) more ended,
    )

    -- No task is the current task of two CPUs.
    pub current_once :
        {s : Machine S} {ended : List ℕ}
        → Reach cpu_count list_count s ended
        → (c d : ℕ) (p q : Task S) → c < d
        → d < cpu_count
        → (s.cpus c).current_task ≡ some p
        → (s.cpus d).current_task ≡ some q
        → p.task_id ≢ q.task_id
    current_once {s} r c d p q h k e f same =
        let x = p.task_id in
        omega (
          arith,
          tasks_conserved r x,
          two_terms-le-sum_below cpu_count (λ i. cpu_count_of x (s.cpus i)) c d h k,
          ap (current_count x) e,
          ap (current_count x) f,
          ap (is_id x) same,
          is_id_self x,
          below-le x s.next_id,
        )
