-- ===== src/Paging/Context.antt =====
-- kernel/rust/src/memory/paging/api.rs, `PagingContext`: a page table for all of virtual memory, with
-- the global tables in it, and its activation on several CPUs beside guards that write to it. A table
-- is its number, `Arc`s are left out, and `active` is _ACTIVE_PAGE_TABLE. Interruptions are off while a
-- CPU changes its table, so that is one step; CR3, which changes with it, is left out.
pub mod Users
use cookie_os.Base.{
  ℕ, suc, ◌+◌, ◌^◌, ◌<◌, ◌≡◌, Option, none, some, List, [], ◌∷◌, ◌++◌, update, Outcome, ok, ◌>>=◌,
}
use cookie_os.Paging.Flags.{PageFlags}
use cookie_os.Paging.FirstFit.{Generics, MlffAllocator}
use cookie_os.Paging.FirstFit.Release.{put_global_table}
use cookie_os.Paging.Locked.{
  Addresses, LevelBelow, GuardCall, run_call, LockedPageAllocator, LpawgOptions, new_default,
  new_locked, _begin_active, _end_active, write_options,
}

module _ (g : Generics) where
  -- The loop over GLOBAL_TABLE_PHYSADDRS and GLOBAL_TABLE_FLAGS.
  unfoldable pub put_global_tables :
      MlffAllocator g → (index : ℕ) → List (ℕ × PageFlags) → Outcome (MlffAllocator g)
  unfolding put_global_table
  put_global_tables allocator index [] = ok allocator
  put_global_tables allocator index ((phys_addr, flags) ∷ tables) = do
    allocator ← put_global_table g allocator index phys_addr flags
    put_global_tables allocator (index + 1) tables

  -- GLOBAL_PAGES_START_IDX is 256, and KERNEL_STATIC_PT_IDX is 511.
  unfoldable pub new_context :
      MlffAllocator g
      → (global_tables : List (ℕ × PageFlags)) → (kernel_static : ℕ × PageFlags)
      → Outcome (LockedPageAllocator g)
  unfolding put_global_tables put_global_table new_locked
  new_context allocator global_tables kernel_static = do
    allocator ← put_global_tables allocator 256 global_tables
    allocator ← put_global_table g allocator 511 kernel_static.0 kernel_static.1
    ok (new_locked g allocator (record { offset = 0; default_options = new_default }))

  -- Calls of `activate` that have counted their table and wait for its lock (`counted`), those that
  -- have had the lock (`begun`), and those that have still to end the use of the table that was active
  -- before (`replaced`). `guard` has the options of the guard that holds the lock of a table.
  pub record World : Type 0 where
    pub tables : ℕ → LockedPageAllocator g
    pub guard : ℕ → Option LpawgOptions
    pub active : ℕ → Option ℕ
    pub counted : List ℕ
    pub begun : List ℕ
    pub replaced : List ℕ

  abbrev pub and_old : Option ℕ → List ℕ → List ℕ
  and_old none replaced = replaced
  and_old (some old) replaced = old ∷ replaced

  module _ (addresses : Addresses) (below : LevelBelow g.st) (cpus : ℕ) where
    -- The count of users has 16 bits; a call that would make it wrap is left out.
    pub data Step (w : World) : World → Type 0 where
      count :
          (table : ℕ)
          → suc (w.tables table).active_count < 2 ^ 16
          → Step w (record w {
            tables = update w.tables table (_begin_active g (w.tables table));
            counted = table ∷ w.counted;
          })
      pass :
          (ps qs : List ℕ) (table : ℕ)
          → w.counted ≡ ps ++ table ∷ qs
          → w.guard table ≡ none
          → Step w (record w { counted = ps ++ qs; begun = table ∷ w.begun })
      switch :
          (ps qs : List ℕ) (table cpu : ℕ)
          → w.begun ≡ ps ++ table ∷ qs
          → cpu < cpus
          → Step w (record w {
            active = update w.active cpu (some table);
            begun = ps ++ qs;
            replaced = and_old (w.active cpu) w.replaced;
          })
      finish :
          (ps qs : List ℕ) (table : ℕ)
          → w.replaced ≡ ps ++ table ∷ qs
          → Step w (record w {
            tables = update w.tables table (_end_active g (w.tables table));
            replaced = ps ++ qs;
          })
      -- `write_when_active`
      acquire :
          (table : ℕ)
          → w.guard table ≡ none
          → Step w
              (record w { guard = update w.guard table (some (write_options g (w.tables table))) })
      -- A call of a method of the guard, in one step as the guard holds the lock.
      write :
          (table : ℕ) (options : LpawgOptions) (call : GuardCall g addresses below)
          (lpa : LockedPageAllocator g)
          → w.guard table ≡ some options
          → run_call g addresses below options (w.tables table) call ≡ ok lpa
          → Step w (record w { tables = update w.tables table lpa })
      release : (table : ℕ) → Step w (record w { guard = update w.guard table none })

    -- From tables that nobody uses.
    pub data Reach : World → Type 0 where
      start :
          (tables : ℕ → LockedPageAllocator g)
          → ((table : ℕ) → (tables table).active_count ≡ 0)
          → Reach (record {
            tables = tables;
            guard = λ table. none;
            active = λ cpu. none;
            counted = [];
            begun = [];
            replaced = [];
          })
      next : {v w : World} → Reach v → Step v w → Reach w
