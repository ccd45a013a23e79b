-- ===== src/Paging/FirstFit/Lowest/Runs.antt =====
-- kernel/rust/src/memory/paging/allocators/firstfit.rs at the lowest level: runs of pages.
use cookie_os.Base.{
  ℕ, zero, suc, ◌+◌, ◌-◌, ◌*◌, ◌≤◌, ◌<◌, ◌≡◌, ◌⊎◌, ◌∙◌, refl, ap, inl, inr, Bool, true, false, not,
  ltb, leb, ◌==◌, ◌&&◌, ◌||◌, Bool-cases, ok, arith, ==_iff, le→leb,
}
use cookie_os.Paging.Allocations.{page, PAllocItems, no_items, item_then, sort_by_offset}
use cookie_os.Paging.Interface.{PageTable, PageTableLaws}
use cookie_os.Paging.FirstFit.{MlffAllocator}
use cookie_os.Paging.FirstFit.Bitmap.{get_availability_lem}
use cookie_os.Paging.FirstFit.Allocate.{alloc_contiguous, is_clear}
use cookie_os.Paging.FirstFit.Release.{deallocate_items}
use cookie_os.Paging.FirstFit.Lowest.{lowest, IsLowest, is_used, claim_entry, clear_entry}

-- The items of the pages `idx`, `idx + 1`, …, with offsets counted from page `start`.
unfoldable pub pages_from : (start idx count : ℕ) → PAllocItems
pages_from start idx zero = no_items
pages_from start idx (suc count) =
    item_then (page idx ((idx - start) * 4096)) (pages_from start (idx + 1) count)

abbrev pub in_run : (idx count j : ℕ) → Bool
in_run idx count j = leb idx j && ltb j (idx + count)

abbrev pub IsFreeRun : (ℕ → Bool) → (idx count : ℕ) → Type 0
IsFreeRun used idx count = (j : ℕ) → idx ≤ j → j < idx + count → used j ≡ false

in_run-zero : (idx j : ℕ) → in_run idx 0 j ≡ false
in_run-zero idx j = ground arith

above-== : (idx j : ℕ) → idx + 1 ≤ j → (j == idx) ≡ false
above-== idx j h = ground arith

in_run-suc :
    (idx count j : ℕ) (b : Bool)
    → (in_run (idx + 1) count j || (j == idx || b)) ≡ (in_run idx (suc count) j || b)
in_run-suc idx count j true = ground arith
in_run-suc idx count j false = ground arith

out_run-suc :
    (idx count j : ℕ) (b : Bool)
    → (not (in_run (idx + 1) count j) && (not (j == idx) && b))
      ≡ (not (in_run idx (suc count) j) && b)
out_run-suc idx count j true = ground arith
out_run-suc idx count j false = ground arith

-- The offsets of a run ascend, so that sorting changes nothing.
pub sort-pages_from :
    (start idx count : ℕ)
    → start ≤ idx
    → sort_by_offset (pages_from start idx count) ≡ pages_from start idx count
unfolding sort_by_offset pages_from
sort-pages_from start idx zero h = refl
sort-pages_from start idx (suc zero) h = refl
sort-pages_from start idx (suc (suc count)) h =
    rw (sort-pages_from start (idx + 1) (suc count) (omega arith))
      (rw (le→leb ((idx - start) * 4096) ((idx + 1 - start) * 4096) (omega arith)) refl)

module _ (pt : PageTable) (laws : PageTableLaws pt) (heap : ℕ → ℕ) where
  -- A free run is taken in whole, and nothing else.
  pub alloc_contiguous-IsLowest :
      (self : MlffAllocator (lowest pt heap)) (start idx count : ℕ)
      → IsLowest pt laws heap self
      → idx + count ≤ 512
      → IsFreeRun (is_used pt laws heap self) idx count
      → (after : MlffAllocator (lowest pt heap)) × (alloc_contiguous
            (lowest pt heap)
            self
            start
            idx
            count
          ≡ ok (after, pages_from start idx count))
        × IsLowest pt laws heap after
        × ((j : ℕ)
            → is_used pt laws heap after j ≡ (in_run idx count j || is_used pt laws heap self j))
  unfolding alloc_contiguous pages_from
  alloc_contiguous-IsLowest self start idx zero inv h free =
      (self, refl, inv, λ j. rw (in_run-zero idx j) refl)
  alloc_contiguous-IsLowest self start idx (suc count) inv h free =
      let (taken, between, e, f, inv', now) =
        claim_entry pt laws heap self start idx inv (omega arith) in
      let (after, g, inv'', then_) =
        alloc_contiguous-IsLowest between start (idx + 1) count inv' (omega arith)
          (λ j a b. now j ∙ rw (above-== idx j a) (free j (omega arith) (omega arith))) in
      (
        after,
        rw
            (
              get_availability_lem {g = lowest pt heap} self idx (omega arith),
              inv.in_step idx (omega arith),
              free idx (omega arith) (omega arith),
              e,
              f,
              g,
            )
            refl,
        inv'',
        λ j. then_ j ∙ rw (now j) (in_run-suc idx count j (is_used pt laws heap self j)),
      )

  -- The test of a run reads the bitmap, which says what the page table says.
  pub is_clear-free :
      (self : MlffAllocator (lowest pt heap)) (start count : ℕ)
      → IsLowest pt laws heap self
      → start + count ≤ 512
      → ((is_clear (lowest pt heap) self start count ≡ ok true)
          × IsFreeRun (is_used pt laws heap self) start count)
        ⊎ ((is_clear (lowest pt heap) self start count ≡ ok false)
            × ¬ IsFreeRun (is_used pt laws heap self) start count)
  unfolding is_clear
  is_clear-free self start zero inv h = inl (refl, λ j a b. absurd (omega arith))
  is_clear-free self start (suc count) inv h =
      let read =
        get_availability_lem {g = lowest pt heap} self start (omega arith)
        ∙ ap ok (inv.in_step start (omega arith)) in
      elim (Bool-cases (is_used pt laws heap self start)) [
        | inl e ↦ inr (rw (read, e) refl, λ free. absurd (ground (arith, free start)))
        | inr e ↦ elim (is_clear-free self (start + 1) count inv (omega arith)) [
          | inl p ↦ inl (
            rw (read, e) p.0,
            λ j a b. elim (Bool-cases (j == start)) [
              | inl f ↦ rw ((==_iff j start).0 f) e
              | inr f ↦ p.1 j (ground arith) (omega arith)
            ],
          )
          | inr p ↦
              inr (rw (read, e) p.0, λ free. p.1 (λ j a b. free j (omega arith) (omega arith)))
        ]
      ]

  -- Freeing the items of a run clears just these pages.
  pub deallocate_run-IsLowest :
      (self : MlffAllocator (lowest pt heap)) (start idx count : ℕ)
      → IsLowest pt laws heap self
      → idx + count ≤ 512
      → (after : MlffAllocator (lowest pt heap)) × (deallocate_items
            (lowest pt heap)
            self
            (pages_from start idx count)
          ≡ ok after)
        × IsLowest pt laws heap after
        × ((j : ℕ)
            → is_used pt laws heap after j
              ≡ (not (in_run idx count j) && is_used pt laws heap self j))
  unfolding deallocate_items pages_from
  deallocate_run-IsLowest self start idx zero inv h =
      (self, refl, inv, λ j. rw (in_run-zero idx j) refl)
  deallocate_run-IsLowest self start idx (suc count) inv h =
      let (between, e, inv', now) =
        clear_entry pt laws heap self idx ((idx - start) * 4096) inv (omega arith) in
      let (after, f, inv'', then_) =
        deallocate_run-IsLowest between start (idx + 1) count inv' (omega arith) in
      (
        after,
        rw (e) f,
        inv'',
        λ j. then_ j ∙ rw (now j) (out_run-suc idx count j (is_used pt laws heap self j)),
      )
