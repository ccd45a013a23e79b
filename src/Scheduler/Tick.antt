-- ===== src/Scheduler/Tick.antt =====
-- `_scheduler_tick` of multitasking/scheduler.rs: which tasks a tick wakes.
use mathlib.Core.Path.{subst}
use mathlib.Core.List.{Permᴰ, append-nil, append_assoc}
use mathlib.Core.List.Permᴰ
use cookie_os.Base.{
  ℕ, zero, suc, ◌+◌, ◌%◌, ◌^◌, ◌≡◌, refl, sym, ap, ◌∙◌, arith, inl, inr, true, false, Bool-cases,
  leb, List, [], ◌∷◌, ◌++◌, map, length, get_elem?, get_elem?-middle, swap_remove,
  swap_remove-middle, All, All-perm, Outcome, ok,
}
use cookie_os.Scheduler.{Task, Cpu, wake, _scheduler_tick}

module _ {ℓ} {A : Type ℓ} where
  unsnoc :
      (xs : List A) (i : ℕ)
      → length xs ≡ suc i
      → (ys : List A) × (a : A) × (xs ≡ ys ++ a ∷ []) × (length ys ≡ i)
  unsnoc [] i h = absurd (omega arith)
  unsnoc (x ∷ []) i h = ([], x, refl, omega arith)
  unsnoc (x ∷ y ∷ xs) zero h = absurd (omega arith)
  unsnoc (x ∷ y ∷ xs) (suc i) h =
      let (ys, a, e, k) = unsnoc (y ∷ xs) i (omega arith) in
      (x ∷ ys, a, ap (λ zs. x ∷ zs) e, omega arith)

module _ {S : Type 0} (now : ℕ) where
  abbrev Due : Task S × ℕ → Type 0
  Due entry = leb entry.1 now ≡ true

  abbrev Later : Task S × ℕ → Type 0
  Later entry = leb entry.1 now ≡ false

  -- What the loop wakes, from the last index on, and what stays asleep.
  record Woken (before : List (Task S × ℕ)) (run_queue : List (Task S))
      (result : Outcome (List (Task S × ℕ) × List (Task S))) : Type 0 where
    woken : List (Task S × ℕ)
    asleep : List (Task S × ℕ)
    result_eq : result ≡ ok (asleep, run_queue ++ map (λ entry. entry.0) woken)
    same : Permᴰ before (woken ++ asleep)
    all_due : All Due woken
    all_later : All Later asleep

  -- The entry at the index is due.
  wake-Due :
      (ps ys zs : List (Task S × ℕ)) (a : Task S × ℕ) (run_queue : List (Task S))
      {r : Outcome (List (Task S × ℕ) × List (Task S))}
      → Due a
      → Permᴰ ys zs
      → Woken (ps ++ zs) (run_queue ++ a.0 ∷ []) r
      → Woken (ps ++ a ∷ ys) run_queue r
  wake-Due ps ys zs a run_queue d p w = record {
    woken = a ∷ w.woken;
    asleep = w.asleep;
    result_eq =
        w.result_eq
        ∙ ap (λ q. ok (w.asleep, q))
            (append_assoc run_queue (a.0 ∷ []) (map (λ entry. entry.0) w.woken));
    same =
        Permᴰ.trans (Permᴰ.middle a ps ys)
          (Permᴰ.cons refl (Permᴰ.trans (Permᴰ.append_left ps p) w.same));
    all_due = (d, w.all_due);
    all_later = w.all_later;
  }

  -- A turn of the loop, given what the turns below do.
  wake_middle :
      (i : ℕ) (ps ys : List (Task S × ℕ)) (a : Task S × ℕ) (run_queue : List (Task S))
      → length ps ≡ i
      → All Later ys
      → ((zs : List (Task S × ℕ)) (queue : List (Task S))
          → All Later zs
          → Woken (ps ++ zs) queue (wake now i (ps ++ zs) queue))
      → Woken (ps ++ a ∷ ys) run_queue (wake now (suc i) (ps ++ a ∷ ys) run_queue)
  unfolding wake
  wake_middle i ps ys a run_queue k l below =
      let found = ap (get_elem? (ps ++ a ∷ ys)) (sym k) ∙ get_elem?-middle ps ys a in
      let (zs, e, p) = swap_remove-middle ps ys a in
      let removed = ap (swap_remove (ps ++ a ∷ ys)) (sym k) ∙ e in
      elim (Bool-cases (leb a.1 now)) [
        | inl d ↦
            wake-Due ps ys zs a run_queue d p
              (rw (found, d, removed) (below zs (run_queue ++ a.0 ∷ []) (All-perm Later p l)))
        | inr d ↦ rw (found, d) (below (a ∷ ys) run_queue (d, l))
      ]

  wake_lem :
      (i : ℕ) (xs ys : List (Task S × ℕ)) (run_queue : List (Task S))
      → length xs ≡ i
      → All Later ys
      → Woken (xs ++ ys) run_queue (wake now i (xs ++ ys) run_queue)
  unfolding wake
  wake_lem zero [] ys run_queue h l = record {
    woken = [];
    asleep = ys;
    result_eq = ap (λ q. ok (ys, q)) (sym (append-nil run_queue));
    same = Permᴰ.refl ys;
    all_due = tt;
    all_later = l;
  }
  wake_lem zero (x ∷ xs) ys run_queue h l = absurd (omega arith)
  wake_lem (suc i) xs ys run_queue h l =
      let (ps, a, e, k) = unsnoc xs i h in
      subst (λ zs. Woken zs run_queue (wake now (suc i) zs run_queue))
        (sym (append_assoc ps (a ∷ []) ys) ∙ ap (λ zs. zs ++ ys) (sym e))
        (wake_middle i ps ys a run_queue k l (λ zs queue. wake_lem i ps zs queue k))

module _ {S : Type 0} where
  -- A tick never fails. It advances the clock by one, and then puts exactly the sleeping tasks whose
  -- time has come at the back of the run queue: the others stay asleep, and nothing else changes.
  pub tick_lem :
      (cpu : Cpu S)
      → (let now = (cpu.ticks + 1) % 2 ^ 64 in
          (woken asleep : List (Task S × ℕ)) × (_scheduler_tick cpu
            ≡ ok (record {
              current_task = cpu.current_task;
              state = record {
                run_queue = cpu.state.run_queue ++ map (λ entry. entry.0) woken;
                sleeping = asleep;
                deferred_drop = cpu.state.deferred_drop;
              };
              ticks = now;
              is_executing_task = cpu.is_executing_task;
            }))
          × Permᴰ cpu.state.sleeping (woken ++ asleep)
          × All (λ entry. leb entry.1 now ≡ true) woken
          × All (λ entry. leb entry.1 now ≡ false) asleep)
  unfolding _scheduler_tick
  tick_lem cpu =
      let now = (cpu.ticks + 1) % 2 ^ 64 in
      let sleeping = cpu.state.sleeping in
      let w =
        subst
          (λ zs.
            Woken now zs cpu.state.run_queue (wake now (length sleeping) zs cpu.state.run_queue))
          (append-nil sleeping)
          (wake_lem now (length sleeping) sleeping [] cpu.state.run_queue refl tt) in
      (w.woken, w.asleep, rw (w.result_eq) refl, w.same, w.all_due, w.all_later)
