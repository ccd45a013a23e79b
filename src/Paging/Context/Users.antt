-- ===== src/Paging/Context/Users.antt =====
-- memory/paging/api.rs: the count of users of a page table counts the CPUs on which it is active.
use mathlib.Core.Path.{subst}
use cookie_os.Base.{
  ℕ, ◌+◌, ◌^◌, ◌≤◌, ◌<◌, ◌≡◌, ◌⊎◌, refl, sym, ap, ◌∙◌, inl, inr, true, ltb, ◌>>=◌, ◌==◌, ==_iff,
  Bool-cases, if◌then◌else◌, Option, none, some, List, ◌∷◌, ◌++◌, after_update, sum_by,
  sum_by-middle, sum_below, sum_below-zero, sum_below-update, term-le-sum_below, ok, >>=-eq-ok,
  ok_injective, arith,
}
use cookie_os.Paging.Flags.{PageFlags}
use cookie_os.Paging.FirstFit.{Generics, MlffAllocator}
use cookie_os.Paging.FirstFit.Release.{put_global_table}
use cookie_os.Paging.Locked.{
  Addresses, LevelBelow, LockedPageAllocator, LpawgOptions, _begin_active, _end_active,
  write_options, new_locked, run_call,
}
use cookie_os.Paging.Allocations.{PartialPageAllocation}
use cookie_os.Paging.Locked.Flush.{IsPlaced, page_addrs, Change, call_of, change, run_call-call_of}
use cookie_os.Paging.Locked.Count.{run_call-active_count}
use cookie_os.Paging.Context.{World, Step, Reach, and_old, new_context, put_global_tables}

abbrev occurs : ℕ → ℕ → ℕ
occurs t u = if t == u then 1 else 0

abbrev uses : ℕ → Option ℕ → ℕ
uses t none = 0
uses t (some u) = occurs t u

-- A new table has no users.
pub new_context-unused :
    (g : Generics) (allocator : MlffAllocator g) (global_tables : List (ℕ × PageFlags))
    (kernel_static : ℕ × PageFlags) (lpa : LockedPageAllocator g)
    → new_context g allocator global_tables kernel_static ≡ ok lpa
    → lpa.active_count ≡ 0
unfolding new_context new_locked
new_context-unused g allocator global_tables kernel_static lpa e =
    let (filled, _, f) = >>=-eq-ok (put_global_tables g allocator 256 global_tables) _ e in
    let (all, _, h) =
      >>=-eq-ok (put_global_table g filled 511 kernel_static.0 kernel_static.1) _ f in
    sym (ap (λ t. t.active_count) (ok_injective h))

module _ (g : Generics) (addresses : Addresses) (below : LevelBelow g.st) (cpus : ℕ) where
  -- CPUs on which a table is active, and calls that are about to make it so.
  on_cpus : World g → ℕ → ℕ
  on_cpus w t = sum_below cpus (λ cpu. uses t (w.active cpu)) + sum_by (occurs t) w.begun

  users : World g → ℕ → ℕ
  users w t = on_cpus w t + sum_by (occurs t) w.counted + sum_by (occurs t) w.replaced

  -- A guard that does not flush writes to a table that is not in use.
  Flushes : Option LpawgOptions → ℕ → Type 0
  Flushes none n = Unit
  Flushes (some options) n = (options.auto_flush_tlb ≡ true) ⊎ (n ≡ 0)

  record Inv (w : World g) : Type 0 where
    counts : (t : ℕ) → (w.tables t).active_count ≡ users w t
    small : (t : ℕ) → (w.tables t).active_count < 2 ^ 16
    flushes : (t : ℕ) → Flushes (w.guard t) (on_cpus w t)

  uses-and_old :
      (t : ℕ) (old : Option ℕ) (replaced : List ℕ)
      → sum_by (occurs t) (and_old g old replaced) ≡ uses t old + sum_by (occurs t) replaced
  uses-and_old t none replaced = omega arith
  uses-and_old t (some u) replaced = omega arith

  taken :
      (ps qs : List ℕ) (table t : ℕ) {queue : List ℕ}
      → queue ≡ ps ++ table ∷ qs
      → sum_by (occurs t) queue ≡ occurs t table + sum_by (occurs t) (ps ++ qs)
  taken ps qs table t e = ap (sum_by (occurs t)) e ∙ sum_by-middle (occurs t) ps qs table

  Flushes-le : (guard : Option LpawgOptions) (m n : ℕ) → n ≤ m → Flushes guard m → Flushes guard n
  unfolding Flushes
  Flushes-le none m n h f = tt
  Flushes-le (some options) m n h (inl flush) = inl flush
  Flushes-le (some options) m n h (inr unused) = inr (omega (arith, h, unused))

  Flushes-free : (guard : Option LpawgOptions) (n : ℕ) → guard ≡ none → Flushes guard n
  unfolding Flushes
  Flushes-free none n e = tt
  Flushes-free (some options) n e = absurd (cc)

  Flushes-acquired :
      (lpa : LockedPageAllocator g) (n : ℕ)
      → n ≤ lpa.active_count
      → Flushes (some (write_options g lpa)) n
  unfolding Flushes write_options
  Flushes-acquired lpa n h = elim (Bool-cases (ltb 0 lpa.active_count)) [
    | inl e ↦ inl e
    | inr e ↦ inr (ground (arith, h, e))
  ]

  step-Inv : {v w : World g} → Inv v → Step g addresses below cpus v w → Inv w
  unfolding users on_cpus _begin_active _end_active
  step-Inv {v} inv (Step.count table h) = record {
    counts =
        after_update
          (λ t lpa. lpa.active_count ≡ users (record v { counted = table ∷ v.counted }) t) v.tables
          table _ (ground (arith, inv.counts table)) (λ t e. ground (arith, inv.counts t, e));
    small =
        after_update (λ t lpa. lpa.active_count < 2 ^ 16) v.tables table _ (omega (arith, h))
          (λ t e. inv.small t);
    flushes = inv.flushes;
  }
  step-Inv {v} inv (Step.pass ps qs table e free) = record {
    counts = λ t. omega (arith, inv.counts t, taken ps qs table t e);
    small = inv.small;
    flushes = λ t. elim (Bool-cases (table == t)) [
      | inl f ↦ Flushes-free (v.guard t) _ (ap v.guard (sym ((==_iff table t).0 f)) ∙ free)
      | inr f ↦ Flushes-le (v.guard t) (on_cpus v t) _ (ground (arith, f)) (inv.flushes t)
    ];
  }
  step-Inv {v} inv (Step.switch ps qs table cpu e h) = record {
    counts = λ t. omega (
      arith,
      inv.counts t,
      taken ps qs table t e,
      sum_below-update (uses t) cpus v.active cpu (some table) h,
      uses-and_old t (v.active cpu) v.replaced,
    );
    small = inv.small;
    flushes = λ t.
        Flushes-le (v.guard t) (on_cpus v t) _
          (omega (
            arith,
            taken ps qs table t e,
            sum_below-update (uses t) cpus v.active cpu (some table) h,
          ))
          (inv.flushes t);
  }
  step-Inv {v} inv (Step.finish ps qs table e) = record {
    counts =
        after_update (λ t lpa. lpa.active_count ≡ users (record v { replaced = ps ++ qs }) t)
          v.tables table _
          (ground (arith, inv.counts table, inv.small table, taken ps qs table table e))
          (λ t f. ground (arith, inv.counts t, taken ps qs table t e, f));
    small =
        after_update (λ t lpa. lpa.active_count < 2 ^ 16) v.tables table _ (omega arith)
          (λ t f. inv.small t);
    flushes = inv.flushes;
  }
  step-Inv {v} inv (Step.acquire table free) = record {
    counts = inv.counts;
    small = inv.small;
    flushes =
        after_update (λ t guard. Flushes guard (on_cpus v t)) v.guard table _
          (Flushes-acquired (v.tables table) (on_cpus v table) (omega (arith, inv.counts table)))
          (λ t f. inv.flushes t);
  }
  step-Inv {v} inv (Step.write table options call lpa held ran) = record {
    counts =
        after_update (λ t lpa. lpa.active_count ≡ users v t) v.tables table _
          (run_call-active_count g addresses below options (v.tables table) lpa call ran
            ∙ inv.counts table)
          (λ t f. inv.counts t);
    small =
        after_update (λ t lpa. lpa.active_count < 2 ^ 16) v.tables table _
          (omega (
            arith,
            run_call-active_count g addresses below options (v.tables table) lpa call ran,
            inv.small table,
          ))
          (λ t f. inv.small t);
    flushes = inv.flushes;
  }
  step-Inv {v} inv (Step.release table) = record {
    counts = inv.counts;
    small = inv.small;
    flushes =
        after_update (λ t guard. Flushes guard (on_cpus v t)) v.guard table _
          (Flushes-free none (on_cpus v table) refl) (λ t f. inv.flushes t);
  }

  Reach-Inv : {w : World g} → Reach g addresses below cpus w → Inv w
  unfolding users on_cpus
  Reach-Inv (Reach.start tables h) = record {
    counts = λ t. omega (arith, h t, sum_below-zero cpus);
    small = λ t. omega (arith, h t);
    flushes = λ t. Flushes-free none _ refl;
  }
  Reach-Inv (Reach.next r step) = step-Inv (Reach-Inv r) step

  active-auto_flush_tlb :
      {w : World g}
      → Reach g addresses below cpus w
      → (t cpu : ℕ) (options : LpawgOptions) → cpu < cpus
      → w.active cpu ≡ some t
      → w.guard t ≡ some options
      → options.auto_flush_tlb ≡ true
  unfolding on_cpus Flushes
  active-auto_flush_tlb {w} r t cpu options h e held =
      let used = term-le-sum_below cpus (λ c. uses t (w.active c)) cpu h in
      let one : uses t (w.active cpu) ≡ 1 = rw (e) (ground arith) in
      let flushes : Flushes (some options) (on_cpus w t) =
        subst (λ o. Flushes o (on_cpus w t)) held ((Reach-Inv r).flushes t) in
      elim flushes [ inl flush ↦ flush | inr unused ↦ absurd (omega (arith, unused, used, one)) ]

  -- In every reachable state, however CPUs activate tables while guards write to them: if a table is
  -- active on some CPU, then a call of the guard that holds its lock, which maps an allocation, marks
  -- it absent or frees it, flushes the TLB of the CPU that writes for the address of each page of the
  -- allocation, in order, and does no more than that and the change of the table. It returns wherever
  -- the change of the table returns. The allocation starts at a page boundary and lies at canonical
  -- addresses; it may be on any level of the tables.
  pub active_table_flushes :
      {w : World g}
      → Reach g addresses below cpus w
      → (t cpu : ℕ) (options : LpawgOptions) (what : Change addresses g below)
      → (allocation : PartialPageAllocation) (voffset : ℕ) → cpu < cpus
      → w.active cpu ≡ some t
      → w.guard t ≡ some options
      → IsPlaced addresses allocation voffset
      → run_call g addresses below options
          (w.tables t)
          (call_of addresses g below what allocation voffset)
        ≡ (change addresses g below options (w.tables t).alloc what allocation >>= λ alloc.
            ok (record (w.tables t) {
              alloc = alloc;
              flushed = (w.tables t).flushed ++ page_addrs addresses allocation voffset;
            }))
  active_table_flushes {w} r t cpu options what allocation voffset h e held placed =
      run_call-call_of addresses g below options (w.tables t) what allocation voffset
        (active-auto_flush_tlb r t cpu options h e held) placed
