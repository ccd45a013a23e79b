-- ===== src/Paging/Split/Runs.antt =====
-- kernel/rust/src/memory/paging/api.rs, `_split_alloc_inner` on a run of pages of the lowest level.
use mathlib.Core.Path.{ap₂}
use cookie_os.Base.{
  ℕ, zero, suc, ◌+◌, ◌-◌, ◌*◌, ◌≤◌, ◌<◌, ◌≡◌, ◌∙◌, refl, ap, ok, panic, arith, lt→ltb, le→not-ltb,
}
use cookie_os.Paging.Allocations.{no_items, item_then, page, change_offsets, partial}
use cookie_os.Paging.Interface.{PageTable}
use cookie_os.Paging.FirstFit.{MlffAllocator, page_size}
use cookie_os.Paging.FirstFit.Release.{split_page}
use cookie_os.Paging.FirstFit.Levels.{no_deeper}
use cookie_os.Paging.FirstFit.Lowest.{lowest}
use cookie_os.Paging.FirstFit.Lowest.Runs.{pages_from}
use cookie_os.Paging.FirstFit.Lowest.Placement.{run_allocation}
use cookie_os.Paging.Split.{Splitter, is_pivot, rebase, split_pivot, split_items, split_alloc_inner}

-- Offsets counted from a later page.
shifted_pages :
    (start from idx count : ℕ)
    → start ≤ from
    → from ≤ idx
    → change_offsets (λ at. at - (from - start) * 4096) (pages_from start idx count)
      ≡ pages_from from idx count
unfolding change_offsets pages_from
shifted_pages start from idx zero h k = refl
shifted_pages start from idx (suc count) h k =
    rw (shifted_pages start from (idx + 1) count h (omega arith))
      (ap (λ at. item_then (page idx at) (pages_from from (idx + 1) count)) (omega arith))

rebased :
    (start before count : ℕ)
    → 0 < count
    → rebase (pages_from start (start + before) count)
      ≡ pages_from (start + before) (start + before) count
unfolding rebase pages_from
rebased start before zero h = absurd (omega arith)
rebased start before (suc count) h =
    shifted_pages start (start + before) (start + before) (suc count) (omega arith) (omega arith)

module _ (pt : PageTable) (heap : ℕ → ℕ) (split_below : Splitter no_deeper) where
  -- Pages from the middle on are in the second part.
  split_items_after :
      (self : MlffAllocator (lowest pt heap)) (start idx count mid : ℕ)
      → mid ≤ (idx - start) * 4096
      → start ≤ idx
      → split_items (lowest pt heap) split_below self (pages_from start idx count) mid
        ≡ ok (self, no_items, pages_from start idx count)
  unfolding split_items pages_from
  split_items_after self start idx zero mid h k = refl
  split_items_after self start idx (suc count) mid h k =
      rw
        (
          le→not-ltb ((idx - start) * 4096) mid h,
          split_items_after self start (idx + 1) count mid (omega arith) (omega arith),
        )
        refl

  split_items-pages_from :
      (self : MlffAllocator (lowest pt heap)) (start idx total before mid : ℕ)
      → start ≤ idx
      → before < total
      → mid ≡ (idx - start + before) * 4096
      → split_items (lowest pt heap) split_below self (pages_from start idx total) mid
        ≡ ok (self, pages_from start idx before, pages_from start (idx + before) (total - before))
  unfolding split_items pages_from is_pivot
  split_items-pages_from self start idx zero before mid h k e = absurd (omega arith)
  split_items-pages_from self start idx (suc total) zero mid h k e =
      let same_idx : idx ≡ idx + 0 = omega arith in
      let same_count : suc total ≡ suc total - 0 = omega arith in
      split_items_after self start idx (suc total) mid (omega arith) h
      ∙ ap₂ (λ i n. ok (self, no_items, pages_from start i n)) same_idx same_count
  split_items-pages_from self start idx (suc zero) (suc before) mid h k e = absurd (omega arith)
  split_items-pages_from self start idx (suc (suc total)) (suc before) mid h k e =
      let same_idx : idx + 1 + before ≡ idx + suc before = omega arith in
      let same_count : suc total - before ≡ suc (suc total) - suc before = omega arith in
      rw
        (
          lt→ltb ((idx - start) * 4096) mid (omega arith),
          le→not-ltb mid ((idx + 1 - start) * 4096) (omega arith),
          split_items-pages_from self start (idx + 1) (suc total) before mid (omega arith)
              (omega arith) (omega arith),
        )
        (ap₂ (λ i n. ok (self, pages_from start idx (suc before), pages_from start i n)) same_idx
          same_count)

  -- With the middle inside or after the last page, that page is the pivot, and it cannot be split.
  split_items-panics :
      (self : MlffAllocator (lowest pt heap)) (start idx last mid : ℕ)
      → start ≤ idx
      → (idx - start + last) * 4096 < mid
      → split_items (lowest pt heap) split_below self (pages_from start idx (suc last)) mid ≡ panic
  unfolding split_items pages_from is_pivot split_pivot split_page
  split_items-panics self start idx zero mid h k =
      rw (lt→ltb ((idx - start) * 4096) mid (omega arith)) refl
  split_items-panics self start idx (suc last) mid h k =
      rw
        (
          lt→ltb ((idx - start) * 4096) mid (omega arith),
          le→not-ltb mid ((idx + 1 - start) * 4096) (omega arith),
          split_items-panics self start (idx + 1) last mid (omega arith) (omega arith),
        )
        refl

  panics_at :
      (self : MlffAllocator (lowest pt heap)) (start total mid : ℕ)
      → 0 < total
      → (total - 1) * 4096 < mid
      → split_items (lowest pt heap) split_below self (pages_from start start total) mid ≡ panic
  panics_at self start zero mid h k = absurd (omega arith)
  panics_at self start (suc last) mid h k =
      split_items-panics self start start last mid (omega arith) (omega arith)

  -- A run of pages of the lowest level splits at each page boundary before its end, without a change of
  -- the allocator, into the pages below the middle and those from there on, both with offsets that start
  -- at zero.
  pub split_alloc_inner_lem :
      (self : MlffAllocator (lowest pt heap)) (start total before : ℕ)
      → before < total
      → split_alloc_inner
          (lowest pt heap)
          split_below
          self
          (run_allocation start total)
          (before * 4096)
        ≡ ok (self, run_allocation start before, run_allocation (start + before) (total - before))
  unfolding split_alloc_inner page_size
  split_alloc_inner_lem self start total before h =
      rw
        (split_items-pages_from self start start total before (before * 4096) (omega arith) h
          (omega arith))
        (ap (λ items. ok (self, run_allocation start before, partial items 4096))
          (rebased start before (total - before) (omega arith)))

  -- With the middle inside or after the last page, its end included, the split panics.
  split_alloc_inner_panics :
      (self : MlffAllocator (lowest pt heap)) (start total mid : ℕ)
      → 0 < total
      → (total - 1) * 4096 < mid
      → split_alloc_inner (lowest pt heap) split_below self (run_allocation start total) mid ≡ panic
  unfolding split_alloc_inner page_size
  split_alloc_inner_panics self start total mid h k = rw (panics_at self start total mid h k) refl
