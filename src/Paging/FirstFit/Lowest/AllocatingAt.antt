-- ===== src/Paging/FirstFit/Lowest/AllocatingAt.antt =====
-- kernel/rust/src/memory/paging/allocators/firstfit.rs at the lowest level: what `allocate_at` does.
use cookie_os.Base.{
  ℕ, ◌+◌, ◌*◌, ◌/◌, ◌%◌, ◌^◌, ◌≤◌, ◌≡◌, ◌⊎◌, refl, inl, inr, true, ltb, none, ok, arith, lt→ltb,
}
use cookie_os.Paging.Interface.{PageTable, PageTableLaws}
use cookie_os.Paging.FirstFit.{MlffAllocator, page_size}
use cookie_os.Paging.FirstFit.Allocate.{
  alloc_end, build_allocation, add_remainders, whole_pages, rest_of,
}
use cookie_os.Paging.FirstFit.Search.{allocate_at, crop_addr, place_of, alloc_start}
use cookie_os.Paging.FirstFit.Lowest.{lowest, IsLowest, is_used}
use cookie_os.Paging.FirstFit.Lowest.Runs.{
  IsFreeRun, alloc_contiguous-IsLowest, is_clear-free, sort-pages_from,
}
use cookie_os.Paging.FirstFit.Lowest.Placement.{TakesRun}
use cookie_os.Paging.FirstFit.Lowest.Allocating.{pages_for}

-- The pages from the one that holds the first byte to the one that holds the last.
abbrev pub pages_at : (addr size : ℕ) → ℕ
pages_at addr size = pages_for (size + addr % 4096)

crop_small : (addr size : ℕ) → addr + size ≤ 512 * 4096 → addr % 2 ^ 48 ≡ addr
crop_small addr size h = omega arith

size_fits : (addr size : ℕ) → addr + size ≤ 512 * 4096 → ltb (size + addr % 4096) (2 ^ 64) ≡ true
size_fits addr size h = lt→ltb (size + addr % 4096) (2 ^ 64) (omega arith)

run_in_table : (addr size : ℕ) → addr + size ≤ 512 * 4096 → addr / 4096 + pages_at addr size ≤ 512
run_in_table addr size h = omega arith

le_self : (n : ℕ) → n ≤ n
le_self n = omega arith

module _ (pt : PageTable) (laws : PageTableLaws pt) (heap : ℕ → ℕ) where
  -- At the lowest level, for an address and a size that stay inside the memory of the table, the call
  -- returns: it takes exactly the pages that hold these bytes, if they are free, with the bitmap kept in
  -- step; otherwise it returns nothing, with the state unchanged, and one of these pages is in use.
  pub allocate_at-TakesRun :
      (self : MlffAllocator (lowest pt heap)) (addr size : ℕ)
      → IsLowest pt laws heap self
      → addr + size ≤ 512 * 4096
      → TakesRun pt laws heap self
          (addr / 4096)
          (pages_at addr size)
          (allocate_at (lowest pt heap) self addr size)
        ⊎ ((allocate_at (lowest pt heap) self addr size ≡ ok (self, none))
            × ¬ IsFreeRun (is_used pt laws heap self) (addr / 4096) (pages_at addr size))
  unfolding allocate_at crop_addr place_of whole_pages rest_of alloc_end alloc_start
      build_allocation add_remainders page_size
  allocate_at-TakesRun self addr size inv h =
      let small = crop_small addr size h in
      let fits = size_fits addr size h in
      let inside = run_in_table addr size h in
      elim (is_clear-free pt laws heap self (addr / 4096) (pages_at addr size) inv inside) [
        | inl (e, free) ↦
            let (after, f, inv', now) =
              alloc_contiguous-IsLowest pt laws heap self (addr / 4096) (addr / 4096)
                (pages_at addr size) inv inside free in
            inl (
              free,
              (
                after,
                rw
                    (
                      small,
                      fits,
                      e,
                      f,
                      sort-pages_from (addr / 4096) (addr / 4096) (pages_at addr size)
                          (le_self (addr / 4096)),
                    )
                    refl,
                inv',
                now,
              ),
            )
        | inr (e, not_free) ↦ inr (rw (small, fits, e) refl, not_free)
      ]
