-- ===== src/Paging/FirstFit/Allocate.antt =====
-- kernel/rust/src/memory/paging/allocators/firstfit.rs: the parts of an allocation.
use cookie_os.Base.{
  ℕ, zero, suc, ◌+◌, ◌-◌, ◌*◌, ◌/◌, ◌%◌, Bool, true, false, not, ltb, leb, ◌==◌, ◌&&◌,
  if◌then◌else◌, Option, none, some, List, [], ◌∷◌, Outcome, ok, panic, ◌>>=◌, ◌>>◌, assert, expect,
}
use cookie_os.Paging.Strategy.{PageAllocationStrategy, pas_next_level_down, allocation_default}
use cookie_os.Paging.Allocations.{
  PAllocItem, page, sub_table, PAllocItems, no_items, item_then, PartialPageAllocation, partial,
  change_offsets, push, sort_by_offset,
}
use cookie_os.Paging.Interface.{reserve}
use cookie_os.Paging.FirstFit.{
  Generics, MlffAllocator, get_availability, set_suballocator, page_size, refresh_availability,
  get_subtable_always, entry_empty, entry_table, entry_half_full, entry_full,
}

module _ (g : Generics) where
  -- One entry of a contiguous allocation: a whole page where the level has them, else a full table.
  unfoldable pub alloc_entry :
      MlffAllocator g → (start idx : ℕ) → Outcome (MlffAllocator g × PAllocItem)
  unfolding reserve page_size get_subtable_always
  alloc_entry self start idx =
      let at = (idx - start) * page_size g in
      if g.hugepages
      then (do
        table ← reserve g.pt self.page_table idx
        ok (record self { page_table = table }, page idx at))
      else if g.subtables
      then (do
        (self, subtable) ← get_subtable_always g self idx
        (subtable, result) ← g.st.allocate subtable (page_size g) allocation_default
        allocation ← expect result
        ok (set_suballocator self idx (some subtable), sub_table idx at allocation))
      else panic

  -- `_alloc_contiguous`: `count` entries from `idx` on
  unfoldable pub alloc_contiguous :
      MlffAllocator g → (start idx count : ℕ) → Outcome (MlffAllocator g × PAllocItems)
  unfolding get_availability alloc_entry refresh_availability
  alloc_contiguous self start idx zero = ok (self, no_items)
  alloc_contiguous self start idx (suc count) = do
    availability ← get_availability self idx
    assert (availability == entry_empty)
    (self, item) ← alloc_entry self start idx
    self ← refresh_availability g self idx
    (self, items) ← alloc_contiguous self start (idx + 1) count
    ok (self, item_then item items)

  -- An allocation by the sub-allocator of an entry.
  unfoldable pub alloc_in_subtable :
      MlffAllocator g
      → ℕ
      → (g.st.State → Outcome (g.st.State × Option PartialPageAllocation))
      → Outcome (MlffAllocator g × Option PartialPageAllocation)
  unfolding get_subtable_always refresh_availability
  alloc_in_subtable self idx call = do
    (self, subtable) ← get_subtable_always g self idx
    (subtable, result) ← call subtable
    let self = set_suballocator self idx (some subtable)
    elim result [
      | some allocation ↦ do self ← refresh_availability g self idx; ok (self, some allocation)
      | none ↦ ok (self, none)
    ]

  unfoldable pub alloc_rem :
      MlffAllocator g
      → (idx inner_offset size : ℕ) → Outcome (MlffAllocator g × Option PartialPageAllocation)
  unfolding get_availability alloc_in_subtable page_size
  alloc_rem self idx inner_offset size = do
    assert g.subtables
    let required_availability = if leb (page_size g / 2) size then entry_table else entry_half_full
    if ltb idx g.pt.npages
        then (do
          availability ← get_availability self idx
          if leb availability required_availability
              then alloc_in_subtable self idx
                  (λ subtable. g.st.allocate_at subtable inner_offset size)
              else ok (self, none))
        else ok (self, none)

  unfoldable pub alloc_inside :
      MlffAllocator g
      → (idx size : ℕ) → List PageAllocationStrategy
      → Outcome (MlffAllocator g × Option PartialPageAllocation)
  unfolding get_availability alloc_in_subtable
  alloc_inside self idx size strategy = do
    assert g.subtables
    if ltb idx g.pt.npages
        then (do
          availability ← get_availability self idx
          if ltb availability entry_full
              then alloc_in_subtable self idx
                  (λ subtable. g.st.allocate subtable size (pas_next_level_down strategy))
              else ok (self, none))
        else ok (self, none)

  -- The contiguous items with the remainders, each with what it adds to the offsets before it.
  unfoldable pub add_remainders : PAllocItems → List (Option (PAllocItem × ℕ)) → PAllocItems
  add_remainders items [] = items
  add_remainders items (none ∷ rem_results) = add_remainders items rem_results
  add_remainders items (some (rem_alloc, offset_by) ∷ rem_results) =
      let shifted = if offset_by == 0 then items else change_offsets (λ at. at + offset_by) items in
      add_remainders (push shifted rem_alloc) rem_results

  unfoldable pub build_allocation :
      PAllocItems → List (Option (PAllocItem × ℕ)) → PartialPageAllocation
  unfolding add_remainders sort_by_offset page_size
  build_allocation contig_result rem_results =
      partial (sort_by_offset (add_remainders contig_result rem_results)) (page_size g)

  unfoldable pub is_clear : MlffAllocator g → (start count : ℕ) → Outcome Bool
  unfolding get_availability
  is_clear self start zero = ok true
  is_clear self start (suc count) = do
    availability ← get_availability self start
    if availability == entry_empty then is_clear self (start + 1) count else ok false

  -- `size / PAGE_SIZE`, or `size.div_ceil(PAGE_SIZE)` where a page cannot be divided
  unfoldable pub whole_pages : ℕ → ℕ
  unfolding page_size
  whole_pages size =
      if g.subtables then size / page_size g else (size + (page_size g - 1)) / page_size g

  unfoldable pub rest_of : ℕ → ℕ
  unfolding page_size
  rest_of size = if g.subtables then size % page_size g else 0

  -- A remainder after the pages that end at `end`, where there is one.
  unfoldable pub alloc_end :
      MlffAllocator g
      → (end pages remainder : ℕ) → Outcome (MlffAllocator g × Option (Option (PAllocItem × ℕ)))
  unfolding alloc_rem page_size
  alloc_end self end pages remainder =
      if not (remainder == 0) && g.subtables
      then (do
        (self, result) ← alloc_rem self end 0 remainder
        elim result [
          | some allocation ↦
              ok (self, some (some (sub_table end (pages * page_size g) allocation, 0)))
          | none ↦ ok (self, none)
        ])
      else ok (self, some none)
