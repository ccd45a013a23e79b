-- ===== src/Paging/FirstFit/Release.antt =====
-- kernel/rust/src/memory/paging/allocators/firstfit.rs: freeing an allocation, splitting a huge page
-- into a table, and entries that belong to a global table.
use cookie_os.Base.{
  ℕ, zero, suc, ◌+◌, ◌*◌, true, false, not, ◌==◌, ◌||◌, if◌then◌else◌, Option, none, some, ◌⊎◌, inl,
  inr, Outcome, ok, ◌>>=◌, ◌>>◌, assert, expect,
}
use cookie_os.Paging.Flags.{PageFlags, empty}
use cookie_os.Paging.Strategy.{allocation_default}
use cookie_os.Paging.Allocations.{
  PAllocItem, page, sub_table, PAllocItems, no_items, item_then, PartialPageAllocation, entries,
}
use cookie_os.Paging.FirstFit.{
  Generics, MlffAllocator, get_availability, set_availability, page_size, get_suballocator_mut,
  set_suballocator, suballocator_at, refresh_availability, point_to_subtable, entry_empty,
  entry_full,
}

module _ (g : Generics) where
  unfoldable pub deallocate_item : MlffAllocator g → PAllocItem → Outcome (MlffAllocator g)
  unfolding get_suballocator_mut refresh_availability
  deallocate_item self (page index at) = do
    table ← g.pt.set_empty self.page_table index
    refresh_availability g (record self { page_table = table }) index
  deallocate_item self (sub_table index at allocation) = do
    sub ← get_suballocator_mut g self index
    suballocator ← expect sub
    suballocator ← g.st.deallocate suballocator allocation
    npages_used ← g.st.get_num_pages_used suballocator
    let self = set_suballocator self index (some suballocator)
    self ←
        if npages_used == 0
        then (do
          table ← g.pt.set_empty self.page_table index
          ok (record (set_suballocator self index none) { page_table = table }))
        else ok self
    refresh_availability g self index

  unfoldable pub deallocate_items : MlffAllocator g → PAllocItems → Outcome (MlffAllocator g)
  unfolding deallocate_item
  deallocate_items self no_items = ok self
  deallocate_items self (item_then item items) = do
    self ← deallocate_item self item
    deallocate_items self items

  unfoldable pub deallocate : MlffAllocator g → PartialPageAllocation → Outcome (MlffAllocator g)
  unfolding deallocate_items
  deallocate self allocation = deallocate_items self (entries allocation)

  -- The entries of a new table that take over the memory or the data of a huge page.
  copy_entry :
      g.st.PageTableType.Table
      → (count : ℕ) → (ℕ × PageFlags) ⊎ ℕ
      → Outcome (g.st.PageTableType.Table)
  copy_entry subpt zero entry = ok subpt
  copy_entry subpt (suc i) (inl (addr, flags)) = do
    subpt ← copy_entry subpt i (inl (addr, flags))
    g.st.PageTableType.set_huge_addr subpt i (addr + i * g.st.page_size) flags
  copy_entry subpt (suc i) (inr held) = do
    subpt ← copy_entry subpt i (inr held)
    g.st.PageTableType.set_absent subpt i held

  flags_of_entry : (ℕ × PageFlags) ⊎ ℕ → PageFlags
  flags_of_entry (inl (addr, flags)) = flags
  flags_of_entry (inr held) = empty

  unfoldable pub split_into_table :
      MlffAllocator g → ℕ → Outcome (MlffAllocator g × PartialPageAllocation)
  unfolding copy_entry flags_of_entry point_to_subtable refresh_availability page_size
  split_into_table self index = do
    suballoc ← g.st.new (g.heap index)
    (suballoc, result) ← g.st.allocate suballoc (page_size g) allocation_default
    allocation ← expect result
    entry ← g.pt.get_entry self.page_table index
    (subpt, with_table) ← g.st.get_page_table_mut suballoc
    subpt ← copy_entry subpt g.st.npages entry
    let suballoc = with_table subpt
    table ← point_to_subtable g self.page_table index suballoc
    self ←
        refresh_availability g
          (record (set_suballocator self index (some suballoc)) { page_table = table }) index
    table ← g.pt.add_subtable_flags false self.page_table index (flags_of_entry entry)
    ok (record self { page_table = table }, allocation)

  unfoldable pub split_page :
      MlffAllocator g → ℕ → Outcome (MlffAllocator g × Option PartialPageAllocation)
  unfolding get_availability suballocator_at split_into_table
  split_page self index = if not g.subtables || not g.hugepages then ok (self, none) else (do
    availability ← get_availability self index
    if not (availability == entry_full) then ok (self, none) else (do
      sub ← suballocator_at self index
      elim sub [
        | some subtable ↦ ok (self, none)
        | none ↦ do (self, allocation) ← split_into_table self index; ok (self, some allocation)
      ]))

  unfoldable pub put_global_table :
      MlffAllocator g → (index phys_addr : ℕ) → PageFlags → Outcome (MlffAllocator g)
  unfolding get_availability set_availability
  put_global_table self index phys_addr flags = do
    assert g.subtables
    availability ← get_availability self index
    assert (availability == entry_empty)
    let flags = record flags { mflags = record flags.mflags { global = true } }
    table ← g.pt.set_subtable_addr self.page_table index phys_addr
    table ← g.pt.add_subtable_flags true table index flags
    set_availability (record self { page_table = table }) index entry_full
