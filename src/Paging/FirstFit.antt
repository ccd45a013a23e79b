-- ===== src/Paging/FirstFit.antt =====
-- kernel/rust/src/memory/paging/allocators/firstfit.rs, `MLFFAllocator`: the state of the multi-level
-- first-fit allocator and the bookkeeping of its entries. The allocator is generic in the page table
-- and in the allocator of the level below. `heap idx` is the address at which the box of the
-- sub-allocator for entry `idx` is put. Logging is left out.
pub mod Allocate
pub mod Bitmap
pub mod Search
pub mod Release
pub mod Levels
pub mod Lowest
use Prim.Native.Nat.{bit_and, bit_or}
use cookie_os.Base.{
  ℕ, zero, suc, ◌+◌, ◌-◌, ◌*◌, ◌/◌, ◌%◌, ◌^◌, Bool, true, false, not, ltb, leb, ◌==◌, ◌&&◌,
  if◌then◌else◌, update, Option, none, some, Outcome, ok, panic, ◌>>=◌, ◌>>◌, assert,
}
use cookie_os.Paging.Interface.{PageTable, PageFrameAllocator}

-- `KERNEL_PTABLE_VADDR` and the size of the memory under one entry of the top table
abbrev kernel_ptable_vaddr : ℕ
kernel_ptable_vaddr = 18446603336221196288

abbrev toplevel_page_size : ℕ
toplevel_page_size = 4096 * 512 * 512 * 512

-- kernel/rust/src/memory/paging/arch/x86_64.rs
unfoldable pub ptaddr_virt_to_phys : ℕ → Outcome ℕ
ptaddr_virt_to_phys vaddr = do
  assert (leb kernel_ptable_vaddr vaddr)
  assert (ltb vaddr (kernel_ptable_vaddr + toplevel_page_size))
  ok (vaddr - kernel_ptable_vaddr)

-- The type parameters and constants of `MLFFAllocator<ST, PT, SUBTABLES, HUGEPAGES>`, and the heap.
pub record Generics : Type 1 where
  pub st : PageFrameAllocator
  pub pt : PageTable
  pub subtables : Bool
  pub hugepages : Bool
  pub heap : ℕ → ℕ

pub record MlffAllocator (g : Generics) : Type 0 where
  pub page_table : g.pt.Table
  -- 512 places
  pub suballocators : ℕ → Option g.st.State
  -- 128 bytes, two bits for each entry
  pub availability_bitmap : ℕ → ℕ
  pub address : ℕ

-- The two bits of an entry: empty, a table at most half used, a table more than half used, full.
abbrev pub entry_empty : ℕ
entry_empty = 0

abbrev pub entry_table : ℕ
entry_table = 1

abbrev pub entry_half_full : ℕ
entry_half_full = 2

abbrev pub entry_full : ℕ
entry_full = 3

abbrev pub left_shift : ℕ → ℕ
left_shift i = 6 - 2 * (i % 4)

full_from : ℕ → (ℕ → ℕ) → ℕ → Bool
full_from zero bitmap i = true
full_from (suc n) bitmap i = if bitmap i == 255 then full_from n bitmap (i + 1) else false

module _ {g : Generics} where
  unfoldable pub get_availability : MlffAllocator g → ℕ → Outcome ℕ
  get_availability self i = do
    assert (ltb (i / 4) 128)
    ok (bit_and (self.availability_bitmap (i / 4) / 2 ^ left_shift i) 3)

  unfoldable pub set_availability : MlffAllocator g → ℕ → ℕ → Outcome (MlffAllocator g)
  set_availability self idx value = do
    assert (ltb (idx / 4) 128)
    let cleared = bit_and (self.availability_bitmap (idx / 4)) (255 - 3 * 2 ^ left_shift idx % 256)
    let written = bit_or cleared (value * 2 ^ left_shift idx % 256)
    ok (record self { availability_bitmap = update self.availability_bitmap (idx / 4) written })

  unfoldable pub is_full : MlffAllocator g → Bool
  unfolding full_from
  is_full self = full_from 128 self.availability_bitmap 0

  -- `&self.suballocators[idx]`
  unfoldable pub suballocator_at : MlffAllocator g → ℕ → Outcome (Option g.st.State)
  suballocator_at self idx = do assert (ltb idx 512); ok (self.suballocators idx)

  abbrev pub set_suballocator : MlffAllocator g → ℕ → Option g.st.State → MlffAllocator g
  set_suballocator self idx sub = record self { suballocators = update self.suballocators idx sub }

module _ (g : Generics) where
  -- `PAGE_SIZE`
  unfoldable pub page_size : ℕ
  page_size = if g.subtables then g.st.page_size * g.st.npages else 4096

  unfoldable pub new : ℕ → Outcome (MlffAllocator g)
  new address = do
    table ← g.pt.new
    ok (record {
      page_table = table;
      suballocators = λ idx. none;
      availability_bitmap = λ i. 0;
      address = address;
    })

  unfoldable pub get_suballocator_mut : MlffAllocator g → ℕ → Outcome (Option g.st.State)
  unfolding suballocator_at
  get_suballocator_mut self index = if not g.subtables then ok none else suballocator_at self index

  unfoldable pub table_availability : g.st.State → Outcome ℕ
  table_availability sub = do
    assert g.subtables
    npages_used ← g.st.get_num_pages_used sub
    full ← if leb g.st.npages npages_used then g.st.is_full sub else ok false
    ok (
        if full
        then entry_full
        else if ltb (g.st.npages / 2) npages_used
        then entry_half_full
        else entry_table)

  unfoldable pub refresh_availability : MlffAllocator g → ℕ → Outcome (MlffAllocator g)
  unfolding suballocator_at table_availability set_availability
  refresh_availability self idx = do
    sub ← suballocator_at self idx
    availability ← elim sub [
      | some sub ↦ table_availability sub
      | none ↦ do
        unused ← g.pt.is_unused self.page_table idx
        ok (if unused then entry_empty else entry_full)
    ]
    set_availability self idx availability

  -- `__point_to_subtable`, with `set_subtable_addr_from_allocator`
  unfoldable pub point_to_subtable : g.pt.Table → ℕ → g.st.State → Outcome g.pt.Table
  unfolding ptaddr_virt_to_phys
  point_to_subtable page_table idx new_st = do
    pointer ← g.st.get_page_table_ptr new_st
    phys_addr ← ptaddr_virt_to_phys pointer
    g.pt.set_subtable_addr page_table idx phys_addr

  -- The allocator with a sub-allocator at the entry, and that sub-allocator.
  unfoldable pub get_subtable_always : MlffAllocator g → ℕ → Outcome (MlffAllocator g × g.st.State)
  unfolding suballocator_at point_to_subtable
  get_subtable_always self idx = do
    sub ← suballocator_at self idx
    elim sub [
      | some subtable ↦ ok (self, subtable)
      | none ↦ do
        new_st ← g.st.new (g.heap idx)
        table ← point_to_subtable self.page_table idx new_st
        ok (record (set_suballocator self idx (some new_st)) { page_table = table }, new_st)
    ]
