-- ===== src/Paging/Mapping.antt =====
-- kernel/rust/src/memory/paging/api.rs, the macro `ppa_define_foreach` and what it defines: all entries
-- of an allocation are mapped to consecutive physical memory, or marked absent. `below` does the same
-- for an allocation of the level below.
pub mod Runs
use cookie_os.Base.{
  ℕ, ◌+◌, Bool, true, false, if◌then◌else◌, Option, some, Outcome, ok, ◌>>=◌, expect,
}
use cookie_os.Paging.Flags.{PageFlags}
use cookie_os.Paging.Allocations.{
  page, sub_table, PAllocItems, no_items, item_then, PartialPageAllocation, entries,
}
use cookie_os.Paging.Interface.{PageTable, PageFrameAllocator}
use cookie_os.Paging.FirstFit.{Generics, MlffAllocator, get_suballocator_mut, set_suballocator}

abbrev pub Foreach : PageFrameAllocator → Type 0
Foreach pfa = pfa.State → PartialPageAllocation → (parentoffset : ℕ) → Outcome pfa.State

module _ (g : Generics) (below : Foreach g.st)
    (on_page on_table : g.pt.Table → (index offset : ℕ) → Outcome g.pt.Table) where
  -- The entries of this level.
  unfoldable pub foreach_entry : g.pt.Table → PAllocItems → (parentoffset : ℕ) → Outcome g.pt.Table
  foreach_entry ptable no_items parentoffset = ok ptable
  foreach_entry ptable (item_then (page index at) items) parentoffset = do
    ptable ← on_page ptable index (parentoffset + at)
    foreach_entry ptable items parentoffset
  foreach_entry ptable (item_then (sub_table index at inner) items) parentoffset = do
    ptable ← on_table ptable index (parentoffset + at)
    foreach_entry ptable items parentoffset

  -- The sub-allocators.
  unfoldable pub foreach_below :
      MlffAllocator g → PAllocItems → (parentoffset : ℕ) → Outcome (MlffAllocator g)
  unfolding get_suballocator_mut
  foreach_below self no_items parentoffset = ok self
  foreach_below self (item_then (page index at) items) parentoffset =
      foreach_below self items parentoffset
  foreach_below self (item_then (sub_table index at inner) items) parentoffset = do
    sub ← get_suballocator_mut g self index
    suballocator ← expect sub
    suballocator ← below suballocator inner (parentoffset + at)
    foreach_below (set_suballocator self index (some suballocator)) items parentoffset

  unfoldable pub ppa_foreach :
      MlffAllocator g → PartialPageAllocation → (parentoffset : ℕ) → Outcome (MlffAllocator g)
  unfolding foreach_entry foreach_below
  ppa_foreach self allocation parentoffset = do
    ptable ← foreach_entry self.page_table (entries allocation) parentoffset
    foreach_below (record self { page_table = ptable }) (entries allocation) parentoffset

module _ (g : Generics) (below : Foreach g.st) where
  unfoldable pub set_addr_inner :
      (base_addr : ℕ)
      → PageFlags
      → MlffAllocator g
      → PartialPageAllocation
      → ℕ
      → Outcome (MlffAllocator g)
  unfolding ppa_foreach
  set_addr_inner base_addr flags =
      ppa_foreach g below
        (λ ptable index offset. g.pt.set_huge_addr ptable index (base_addr + offset) flags)
        (λ ptable index offset. g.pt.add_subtable_flags false ptable index flags)

  -- What `set_base_addr` does to the tables; a global allocator adds the global flag.
  unfoldable pub set_base_addr :
      (is_global_page : Bool)
      → MlffAllocator g
      → PartialPageAllocation
      → (base_addr : ℕ) → PageFlags
      → Outcome (MlffAllocator g)
  unfolding set_addr_inner
  set_base_addr is_global_page self allocation base_addr flags =
      let flags =
        if is_global_page
        then record flags { mflags = record flags.mflags { global = true } }
        else flags in
      set_addr_inner base_addr flags self allocation 0

  unfoldable pub set_missing_inner :
      (held : ℕ) → MlffAllocator g → PartialPageAllocation → ℕ → Outcome (MlffAllocator g)
  unfolding ppa_foreach
  set_missing_inner held =
      ppa_foreach g below (λ ptable index offset. g.pt.set_absent ptable index held)
        (λ ptable index offset. ok ptable)

  unfoldable pub set_absent :
      MlffAllocator g → PartialPageAllocation → (held : ℕ) → Outcome (MlffAllocator g)
  unfolding set_missing_inner
  set_absent self allocation held = set_missing_inner held self allocation 0
