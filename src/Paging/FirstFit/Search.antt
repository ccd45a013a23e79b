-- ===== src/Paging/FirstFit/Search.antt =====
-- kernel/rust/src/memory/paging/allocators/firstfit.rs: the search for a free place, and allocation at
-- a given address. A `break 'check` is the outcome `none` of a try.
use cookie_os.Base.{
  ℕ, zero, suc, ◌+◌, ◌-◌, ◌/◌, ◌%◌, ◌^◌, Bool, true, false, not, ltb, leb, ◌==◌, ◌&&◌, ◌||◌,
  if◌then◌else◌, min, max, Option, none, some, List, [], ◌∷◌, ◌++◌, Outcome, ok, ◌>>=◌, ◌>>◌,
  assert, expect,
}
use cookie_os.Paging.{is_usize}
use cookie_os.Paging.Strategy.{PageAllocationStrategy, pas_current}
use cookie_os.Paging.Allocations.{
  PAllocItem, page, sub_table, no_items, item_then, PartialPageAllocation, partial,
}
use cookie_os.Paging.FirstFit.{
  Generics, MlffAllocator, get_availability, page_size, get_suballocator_mut, set_suballocator,
  entry_empty,
}
use cookie_os.Paging.FirstFit.Allocate.{
  alloc_contiguous, alloc_rem, alloc_inside, alloc_end, build_allocation, is_clear, whole_pages,
  rest_of,
}

-- `start..end` with `count` elements
unfoldable pub range : (start count : ℕ) → List ℕ
range start zero = []
range start (suc count) = start ∷ range (start + 1) count

unfoldable pub reverse : List ℕ → List ℕ
reverse [] = []
reverse (x ∷ xs) = reverse xs ++ x ∷ []

-- `crop_addr` of arch/x86_64.rs
unfoldable pub crop_addr : ℕ → ℕ
crop_addr addr = addr % 2 ^ 48

-- The first and the end of the page indices that the strategy admits. The differences are those of a
-- debug build, which panics below zero.
unfoldable pub search_bounds : (npages search_npages : ℕ) → PageAllocationStrategy → Outcome (ℕ × ℕ)
search_bounds npages search_npages strategy = do
  assert (leb search_npages npages)
  let min_page : ℕ = elim strategy.min_page [ none ↦ 0 | some x ↦ max 0 x ]
  let max_page = npages - search_npages + 1
  max_page ← elim strategy.max_page [
    | none ↦ ok max_page
    | some x ↦ do assert (leb search_npages (x + 1)); ok (min max_page (x + 1 - search_npages + 1))
  ]
  ok (min_page, max_page)

unfoldable pub search_order : (min_page max_page : ℕ) → Bool → List ℕ
unfolding range reverse
search_order min_page max_page reverse_order =
    let offsets = range min_page (max_page - min_page) in
    if reverse_order then reverse offsets else offsets

module _ (g : Generics) where
  -- Less than one page, inside a table.
  unfoldable pub try_inside :
      MlffAllocator g
      → List PageAllocationStrategy
      → PageAllocationStrategy
      → (remainder i : ℕ) → Outcome (MlffAllocator g × Option PartialPageAllocation)
  unfolding get_availability alloc_inside page_size
  try_inside self alloc_strat strategy remainder i = do
    skip ←
        if strategy.spread_mode
        then (do availability ← get_availability self i; ok (not (availability == entry_empty)))
        else ok false
    if skip then ok (self, none) else (do
      (self, result) ← alloc_inside g self i remainder alloc_strat
      elim result [
        | some allocation ↦
            ok (self, some (partial (item_then (sub_table i 0 allocation) no_items) (page_size g)))
        | none ↦ ok (self, none)
      ])

  -- Whole pages from `start` on, and the remainder after them.
  unfoldable pub try_pages :
      MlffAllocator g
      → (pages remainder start : ℕ) → Outcome (MlffAllocator g × Option PartialPageAllocation)
  unfolding is_clear alloc_end alloc_contiguous build_allocation
  try_pages self pages remainder start = do
    clear ← is_clear g self start pages
    if not clear then ok (self, none) else (do
      (self, result) ← alloc_end g self (start + pages) pages remainder
      elim result [
        | none ↦ ok (self, none)
        | some remainder_allocated ↦ do
          (self, contig_result) ← alloc_contiguous g self start start pages
          ok (self, some (build_allocation g contig_result (remainder_allocated ∷ [])))
      ])

  -- The body of the loops for one offset.
  unfoldable pub try_offset :
      MlffAllocator g
      → List PageAllocationStrategy
      → PageAllocationStrategy
      → (pages remainder offset : ℕ) → Outcome (MlffAllocator g × Option PartialPageAllocation)
  unfolding try_inside try_pages
  try_offset self alloc_strat strategy pages remainder offset =
      if g.subtables && ltb pages 1
      then try_inside self alloc_strat strategy remainder offset
      else try_pages self pages remainder offset

  unfoldable pub search :
      (MlffAllocator g → ℕ → Outcome (MlffAllocator g × Option PartialPageAllocation))
      → MlffAllocator g
      → List ℕ
      → Outcome (MlffAllocator g × Option PartialPageAllocation)
  search try self [] = ok (self, none)
  search try self (offset ∷ offsets) = do
    (self, result) ← try self offset
    elim result [ some allocation ↦ ok (self, some allocation) | none ↦ search try self offsets ]

  -- One search for each value of the `spread_mode` of the loop, which its body does not read.
  unfoldable pub search_modes :
      (MlffAllocator g → ℕ → Outcome (MlffAllocator g × Option PartialPageAllocation))
      → MlffAllocator g
      → List ℕ
      → List Bool
      → Outcome (MlffAllocator g × Option PartialPageAllocation)
  unfolding search
  search_modes try self offsets [] = ok (self, none)
  search_modes try self offsets (spread_mode ∷ modes) = do
    (self, result) ← search try self offsets
    elim result [
      | some allocation ↦ ok (self, some allocation)
      | none ↦ search_modes try self offsets modes
    ]

  unfoldable pub allocate :
      MlffAllocator g
      → ℕ
      → List PageAllocationStrategy
      → Outcome (MlffAllocator g × Option PartialPageAllocation)
  unfolding whole_pages rest_of search_bounds search_order search_modes try_offset
  allocate self size alloc_strat = do
    strategy ← pas_current alloc_strat
    let pages = whole_pages g size
    let remainder = rest_of g size
    let search_npages = pages + (if ltb 0 remainder then 1 else 0)
    (min_page, max_page) ← search_bounds g.pt.npages search_npages strategy
    let offsets = search_order min_page max_page strategy.reverse_order
    let spread_mode_itr = if strategy.spread_mode then true ∷ false ∷ [] else false ∷ []
    search_modes (λ self offset. try_offset self alloc_strat strategy pages remainder offset) self
        offsets spread_mode_itr

  -- The remainder before the first whole page, where the address is not at a page boundary.
  unfoldable pub alloc_start :
      MlffAllocator g
      → (start_idx start_rem_at start_rem_size : ℕ)
      → Outcome (MlffAllocator g × Option (Option (PAllocItem × ℕ)))
  unfolding alloc_rem
  alloc_start self start_idx start_rem_at start_rem_size =
      if not (start_rem_at == 0) && g.subtables
      then (do
        (self, result) ← alloc_rem g self (start_idx - 1) start_rem_at start_rem_size
        elim result [
          | some allocation ↦
              ok (self, some (some (sub_table (start_idx - 1) 0 allocation, start_rem_size)))
          | none ↦ ok (self, none)
        ])
      else ok (self, some none)

  -- Takes back a remainder at the end, when the one at the start has failed.
  unfoldable pub undo_remainder :
      MlffAllocator g → Option (PAllocItem × ℕ) → Outcome (MlffAllocator g)
  unfolding get_suballocator_mut
  undo_remainder self none = ok self
  undo_remainder self (some (page index at, by)) = ok self
  undo_remainder self (some (sub_table index at allocation, by)) = do
    sub ← get_suballocator_mut g self index
    sub ← expect sub
    sub ← g.st.deallocate sub allocation
    ok (set_suballocator self index (some sub))

  -- Where an allocation of `size` bytes at `addr` lies: the first whole page, the bytes from there on,
  -- and the offset and size of the remainder before it.
  unfoldable pub place_of : (addr size : ℕ) → Outcome (ℕ × ℕ × ℕ × ℕ)
  unfolding page_size
  place_of addr size = do
    let inner = addr % page_size g
    assert (g.subtables || is_usize (size + inner))
    let start_idx = addr / page_size g
    let start_rem_at = if g.subtables then inner else 0
    let size = if g.subtables then size else size + inner
    let start_rem_size = page_size g - start_rem_at
    ok (
        if start_rem_at == 0
        then (start_idx, size, start_rem_at, 0)
        else (start_idx + 1, size - start_rem_size, start_rem_at, min start_rem_size size))

  unfoldable pub allocate_at :
      MlffAllocator g → (addr size : ℕ) → Outcome (MlffAllocator g × Option PartialPageAllocation)
  unfolding crop_addr place_of whole_pages rest_of is_clear alloc_end alloc_start undo_remainder
      alloc_contiguous build_allocation
  allocate_at self addr size = do
    (start_idx, size, start_rem_at, start_rem_size) ← place_of (crop_addr addr) size
    let pages = whole_pages g size
    let remainder = rest_of g size
    clear ← is_clear g self start_idx pages
    if not clear then ok (self, none) else (do
      (self, result) ← alloc_end g self (start_idx + pages) pages remainder
      elim result [
        | none ↦ ok (self, none)
        | some remainder_allocated ↦ do
          (self, result) ← alloc_start self start_idx start_rem_at start_rem_size
          elim result [
            | none ↦ do self ← undo_remainder self remainder_allocated; ok (self, none)
            | some startrem_allocated ↦ do
              (self, contig_result) ← alloc_contiguous g self start_idx start_idx pages
              ok (
                self,
                some (
                    build_allocation g contig_result
                      (remainder_allocated ∷ startrem_allocated ∷ [])),
              )
          ]
      ])
