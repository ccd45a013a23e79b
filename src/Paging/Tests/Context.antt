-- ===== src/Paging/Tests/Context.antt =====
-- Activations of page tables on two CPUs, and the witness of their theorem.
use cookie_os.Base.{ℕ, ◌≡◌, refl, false, none, some, [], ◌∷◌, ◌++◌, ok, ◌>>=◌, update, arith}
use cookie_os.Paging.FirstFit.Lowest.{lowest}
use cookie_os.Paging.Locked.{
  LockedPageAllocator, LpawgOptions, _begin_active, write_options, run_call,
}
use cookie_os.Paging.Locked.Flush.{Change, call_of, change, page_addrs}
use cookie_os.Paging.Context.{World, Step, Reach, and_old}
use cookie_os.Paging.Context.Users.{active_table_flushes}
use cookie_os.Paging.Tests.{test_pt, test_heap}
use cookie_os.Paging.Tests.Locked.{
  test_locked, test_addresses, test_level_below, nested, nested-IsPlaced,
}

abbrev unused : LockedPageAllocator (lowest test_pt test_heap)
unused = record test_locked { active_count = 0 }

abbrev at_start : World (lowest test_pt test_heap)
at_start = record {
  tables = λ t. unused;
  guard = λ t. none;
  active = λ cpu. none;
  counted = [];
  begun = [];
  replaced = [];
}

abbrev count_table : World (lowest test_pt test_heap) → ℕ → World (lowest test_pt test_heap)
count_table w t = record w {
  tables = update w.tables t (_begin_active (lowest test_pt test_heap) (w.tables t));
  counted = t ∷ w.counted;
}

-- Of the only call that runs.
abbrev switch_to : World (lowest test_pt test_heap) → (t cpu : ℕ) → World (lowest test_pt test_heap)
switch_to w t cpu = record w {
  active = update w.active cpu (some t);
  counted = [];
  begun = [];
  replaced = and_old (lowest test_pt test_heap) (w.active cpu) w.replaced;
}

abbrev lock_table : World (lowest test_pt test_heap) → ℕ → World (lowest test_pt test_heap)
lock_table w t = record w {
  guard = update w.guard t (some (write_options (lowest test_pt test_heap) (w.tables t)));
}

-- CPU 0 activates table 3, then CPU 1 table 5, which is then locked to be written.
abbrev first : World (lowest test_pt test_heap)
first = switch_to (count_table at_start 3) 3 0

abbrev activated : World (lowest test_pt test_heap)
activated = lock_table (switch_to (count_table first 5) 5 1) 5

activated-Reach : Reach (lowest test_pt test_heap) test_addresses test_level_below 2 activated
unfolding _begin_active
activated-Reach =
    let one : Reach (lowest test_pt test_heap) test_addresses test_level_below 2 first =
      Reach.next
        (Reach.next
          (Reach.next (Reach.start (λ t. unused) (λ t. refl)) (Step.count 3 (omega arith)))
          (Step.pass [] [] 3 refl refl))
        (Step.switch [] [] 3 0 refl (omega arith)) in
    Reach.next
      (Reach.next
        (Reach.next (Reach.next one (Step.count 5 (omega arith))) (Step.pass [] [] 5 refl refl))
        (Step.switch [] [] 5 1 refl (omega arith)))
      (Step.acquire 5 refl)

abbrev held_options : LpawgOptions
held_options = write_options (lowest test_pt test_heap) (activated.tables 5)

active_table_flushes_example :
    run_call
      (lowest test_pt test_heap)
      test_addresses
      test_level_below
      held_options
      (activated.tables 5)
      (call_of test_addresses
        (lowest test_pt test_heap)
        test_level_below
        (Change.mark_absent 3)
        nested
        0x40000000)
    ≡ (change test_addresses
          (lowest test_pt test_heap)
          test_level_below
          held_options
          (activated.tables 5).alloc
          (Change.mark_absent 3)
          nested
        >>= λ alloc. ok (record (activated.tables 5) {
          alloc = alloc;
          flushed = (activated.tables 5).flushed ++ page_addrs test_addresses nested 0x40000000;
        }))
active_table_flushes_example =
    active_table_flushes (lowest test_pt test_heap) test_addresses test_level_below 2
      activated-Reach 5 1 held_options (Change.mark_absent 3) nested 0x40000000 (omega arith) refl
      refl nested-IsPlaced

-- A table is counted while a guard that does not flush holds its lock.
abbrev counted_late : World (lowest test_pt test_heap)
counted_late = count_table (lock_table at_start 7) 7

counted_late-Reach : Reach (lowest test_pt test_heap) test_addresses test_level_below 2 counted_late
counted_late-Reach =
    Reach.next (Reach.next (Reach.start (λ t. unused) (λ t. refl)) (Step.acquire 7 refl))
      (Step.count 7 (omega arith))

counted_while_written :
    ((counted_late.tables 7).active_count ≡ 1)
    × (counted_late.guard 7 ≡ some (record { auto_flush_tlb = false; is_global_page = false }))
unfolding _begin_active write_options
counted_while_written = (refl, refl)
