-- ===== src/Paging/Split.antt =====
-- kernel/rust/src/memory/paging/api.rs, `_split_alloc_inner`: an allocation of a first-fit allocator is
-- split in two. `split_below` splits an allocation of the level below.
pub mod Runs
use cookie_os.Base.{
  ℕ, ◌+◌, ◌-◌, Bool, true, ltb, leb, if◌then◌else◌, Option, some, Outcome, ok, ◌>>=◌, ◌>>◌, assert,
  expect,
}
use cookie_os.Paging.Allocations.{
  PAllocItem, page, sub_table, PAllocItems, no_items, item_then, PartialPageAllocation, partial,
  offset, entries, change_offsets,
}
use cookie_os.Paging.Interface.{PageFrameAllocator}
use cookie_os.Paging.FirstFit.{
  Generics, MlffAllocator, page_size, get_suballocator_mut, set_suballocator,
}
use cookie_os.Paging.FirstFit.Release.{split_page}

abbrev pub Splitter : PageFrameAllocator → Type 0
Splitter pfa =
    pfa.State
    → PartialPageAllocation
    → (mid : ℕ) → Outcome (pfa.State × PartialPageAllocation × PartialPageAllocation)

-- The next item, if there is one, begins after the middle.
unfoldable pub is_pivot : (mid : ℕ) → PAllocItems → Bool
is_pivot mid no_items = true
is_pivot mid (item_then next items) = ltb mid (offset next)

-- The second part begins at its own first item.
unfoldable pub rebase : PAllocItems → PAllocItems
unfolding change_offsets
rebase no_items = no_items
rebase (item_then first items) = change_offsets (λ at. at - offset first) (item_then first items)

module _ (g : Generics) (split_below : Splitter g.st) where
  split_inside :
      MlffAllocator g
      → (index at : ℕ) → PartialPageAllocation
      → (mid : ℕ) → Outcome (MlffAllocator g × PAllocItem × PAllocItem)
  unfolding get_suballocator_mut
  split_inside self index at inner mid = do
    sub ← get_suballocator_mut g self index
    suballocator ← expect sub
    assert (leb at mid)
    let lhs_size = mid - at
    (suballocator, left, right) ← split_below suballocator inner lhs_size
    ok (
      set_suballocator self index (some suballocator),
      sub_table index at left,
      sub_table index (at + lhs_size) right,
    )

  -- The item with the middle inside it: a table, or a page that becomes one.
  unfoldable pub split_pivot :
      MlffAllocator g → PAllocItem → (mid : ℕ) → Outcome (MlffAllocator g × PAllocItem × PAllocItem)
  unfolding split_inside split_page
  split_pivot self (sub_table index at inner) mid = split_inside self index at inner mid
  split_pivot self (page index at) mid = do
    (self, result) ← split_page g self index
    suballocation ← expect result
    split_inside self index at suballocation mid

  unfoldable pub split_items :
      MlffAllocator g
      → PAllocItems
      → (mid : ℕ) → Outcome (MlffAllocator g × PAllocItems × PAllocItems)
  unfolding is_pivot split_pivot
  split_items self no_items mid = ok (self, no_items, no_items)
  split_items self (item_then item items) mid =
      if ltb (offset item) mid
      then (if is_pivot mid items
          then (do
            (self, left, right) ← split_pivot self item mid
            (self, lhs, rhs) ← split_items self items mid
            ok (self, item_then left lhs, item_then right rhs))
          else (do
            (self, lhs, rhs) ← split_items self items mid
            ok (self, item_then item lhs, rhs)))
      else (do (self, lhs, rhs) ← split_items self items mid; ok (self, lhs, item_then item rhs))

  unfoldable pub split_alloc_inner :
      MlffAllocator g
      → PartialPageAllocation
      → (mid : ℕ) → Outcome (MlffAllocator g × PartialPageAllocation × PartialPageAllocation)
  unfolding split_items rebase page_size
  split_alloc_inner self allocation mid = do
    (self, lhs, rhs) ← split_items self (entries allocation) mid
    ok (self, partial lhs (page_size g), partial (rebase rhs) (page_size g))
