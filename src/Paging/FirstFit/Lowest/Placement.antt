-- ===== src/Paging/FirstFit/Lowest/Placement.antt =====
-- kernel/rust/src/memory/paging/allocators/firstfit.rs at the lowest level: the loops of `allocate`.
use cookie_os.Base.{
  ℕ, ◌+◌, ◌≤◌, ◌≡◌, ◌⊎◌, refl, ap, inl, inr, Bool, ◌||◌, Option, none, some, List, [], ◌∷◌, ◌++◌,
  All, Outcome, ok, arith,
}
use cookie_os.Paging.Strategy.{PageAllocationStrategy}
use cookie_os.Paging.Allocations.{PartialPageAllocation, partial}
use cookie_os.Paging.Interface.{PageTable, PageTableLaws}
use cookie_os.Paging.FirstFit.{MlffAllocator, page_size}
use cookie_os.Paging.FirstFit.Allocate.{alloc_end, build_allocation, add_remainders}
use cookie_os.Paging.FirstFit.Search.{try_offset, try_pages, search, search_modes}
use cookie_os.Paging.FirstFit.Lowest.{lowest, IsLowest, is_used}
use cookie_os.Paging.FirstFit.Lowest.Runs.{
  pages_from, in_run, IsFreeRun, alloc_contiguous-IsLowest, is_clear-free, sort-pages_from,
}

abbrev pub run_allocation : (start pages : ℕ) → PartialPageAllocation
run_allocation start pages = partial (pages_from start start pages) 4096

module _ (pt : PageTable) (laws : PageTableLaws pt) (heap : ℕ → ℕ) where
  -- The call returned the run of pages at `start`, which it took and nothing else.
  abbrev pub TakesRun :
      MlffAllocator (lowest pt heap)
      → (start pages : ℕ) → Outcome (MlffAllocator (lowest pt heap) × Option PartialPageAllocation)
      → Type 0
  TakesRun self start pages call =
      IsFreeRun (is_used pt laws heap self) start pages
      × ((after : MlffAllocator (lowest pt heap)) × (call
            ≡ ok (after, some (run_allocation start pages)))
          × IsLowest pt laws heap after
          × ((j : ℕ)
              → is_used pt laws heap after j
                ≡ (in_run start pages j || is_used pt laws heap self j)))

  -- A try takes its run if it is free, and fails without a change if it is not.
  try_offset-TakesRun :
      (self : MlffAllocator (lowest pt heap)) (strategies : List PageAllocationStrategy)
      (strategy : PageAllocationStrategy) (pages start : ℕ)
      → IsLowest pt laws heap self
      → start + pages ≤ 512
      → TakesRun self start pages
          (try_offset (lowest pt heap) self strategies strategy pages 0 start)
        ⊎ ((try_offset (lowest pt heap) self strategies strategy pages 0 start ≡ ok (self, none))
            × ¬ IsFreeRun (is_used pt laws heap self) start pages)
  unfolding try_offset try_pages alloc_end build_allocation add_remainders page_size
  try_offset-TakesRun self strategies strategy pages start inv h =
      elim (is_clear-free pt laws heap self start pages inv h) [
        | inl (e, free) ↦
            let (after, f, inv', now) =
              alloc_contiguous-IsLowest pt laws heap self start start pages inv h free in
            inl (
              free,
              (after, rw (e, f, sort-pages_from start start pages (omega arith)) refl, inv', now),
            )
        | inr (e, not_free) ↦ inr (rw (e) refl, not_free)
      ]

  module _ (strategies : List PageAllocationStrategy) (strategy : PageAllocationStrategy)
      (pages : ℕ) where
    abbrev pub try_run :
        MlffAllocator (lowest pt heap)
        → ℕ
        → Outcome (MlffAllocator (lowest pt heap) × Option PartialPageAllocation)
    try_run self offset = try_offset (lowest pt heap) self strategies strategy pages 0 offset

    abbrev pub IsTaken : (ℕ → Bool) → ℕ → Type 0
    IsTaken used offset = ¬ IsFreeRun used offset pages

    -- The first offset of the list whose run is free.
    abbrev pub TakesFirst :
        MlffAllocator (lowest pt heap)
        → List ℕ
        → Outcome (MlffAllocator (lowest pt heap) × Option PartialPageAllocation)
        → Type 0
    TakesFirst self offsets call =
        (before : List ℕ) × (offset : ℕ) × (rest : List ℕ) × (offsets ≡ before ++ offset ∷ rest)
        × All (IsTaken (is_used pt laws heap self)) before
        × TakesRun self offset pages call

    search-TakesFirst :
        (self : MlffAllocator (lowest pt heap)) (offsets : List ℕ)
        → IsLowest pt laws heap self
        → All (λ offset. offset + pages ≤ 512) offsets
        → TakesFirst self offsets (search (lowest pt heap) try_run self offsets)
          ⊎ ((search (lowest pt heap) try_run self offsets ≡ ok (self, none))
              × All (IsTaken (is_used pt laws heap self)) offsets)
    unfolding search
    search-TakesFirst self [] inv h = inr (refl, tt)
    search-TakesFirst self (offset ∷ offsets) inv h =
        elim (try_offset-TakesRun self strategies strategy pages offset inv h.0) [
          | inl (free, (after, e, kept, now)) ↦
              inl ([], offset, offsets, refl, tt, (free, (after, rw (e) refl, kept, now)))
          | inr (e, taken) ↦ elim (search-TakesFirst self offsets inv h.1) [
            | inl (before, first, rest, f, all, (free, (after, g, kept, now))) ↦ inl (
              offset ∷ before,
              first,
              rest,
              ap (◌∷◌ offset) f,
              (taken, all),
              (free, (after, rw (e, g) refl, kept, now)),
            )
            | inr (f, all) ↦ inr (rw (e, f) refl, (taken, all))
          ]
        ]

    -- A second pass over the same offsets finds what the first one found.
    pub search_modes-TakesFirst :
        (self : MlffAllocator (lowest pt heap)) (offsets : List ℕ) (mode : Bool) (modes : List Bool)
        → IsLowest pt laws heap self
        → All (λ offset. offset + pages ≤ 512) offsets
        → TakesFirst self offsets
            (search_modes (lowest pt heap) try_run self offsets (mode ∷ modes))
          ⊎ ((search_modes (lowest pt heap) try_run self offsets (mode ∷ modes) ≡ ok (self, none))
              × All (IsTaken (is_used pt laws heap self)) offsets)
    unfolding search_modes
    search_modes-TakesFirst self offsets mode modes inv h =
        elim (search-TakesFirst self offsets inv h) [
          | inl (before, first, rest, f, all, (free, (after, g, kept, now))) ↦
              inl (before, first, rest, f, all, (free, (after, rw (g) refl, kept, now)))
          | inr (e, all) ↦ inr (rw (e) (no_more modes e), all)
        ]
      where
        no_more :
            (modes : List Bool)
            → search (lowest pt heap) try_run self offsets ≡ ok (self, none)
            → search_modes (lowest pt heap) try_run self offsets modes ≡ ok (self, none)
        no_more [] e = refl
        no_more (m ∷ ms) e = rw (e) (no_more ms e)
