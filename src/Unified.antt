-- ===== src/Unified.antt =====
-- kernel/rust/src/memory/unified.rs: allocations of physical memory, in sections, with the places in
-- virtual memory where they are mapped. This file has their data, and the interface `Memory` to the
-- components below: virtual memory (the trait `AnyPageAllocation` of memory/paging/api.rs), physical
-- memory, the table of descriptors of absent pages, and writes to memory. A world is the state of all of these.
-- A `UnifiedAllocation` is the value inside its lock, and a number stands for its `Arc`.
pub mod Offsets
pub mod Remap
pub mod Expand
pub mod Vmem
pub mod Mapping
pub mod Stack
mod Tests
use cookie_os.Base.{
  ℕ, ◌+◌, ◌^◌, Bool, true, false, ltb, leb, Option, none, some, List, Outcome, ok, ◌>>=◌, ◌>>◌,
  assert, expect,
}
use cookie_os.Base.Int.{ℤ, pos, pos_part, neg_part}
use cookie_os.Physical.{PhysicalMemoryAllocation}
use cookie_os.Paging.AllocationSize.{PageAllocationSizeT}
use cookie_os.Paging.AllocationSize as Size
use cookie_os.Paging.AlignedOffset.{PageAlignedOffsetT}
use cookie_os.Paging.AlignedOffset as Offset
use cookie_os.Paging.AlignedAddress.{PageAlignedAddressT}
use cookie_os.Paging.AlignedAddress as Address
use cookie_os.Paging.Flags.{PageFlags}
use cookie_os.Paging.Strategy.{PageAllocationStrategy}

-- What both rules of `add_offset_and_size` make of the size.
unfoldable pub size_to_offset : PageAllocationSizeT → Outcome PageAlignedOffsetT
unfolding Size.get Offset.new_checked Offset.new
size_to_offset size = do
  r1 ← Size.get size
  assert (ltb r1 (2 ^ 63))
  r3 ← Offset.new_checked (pos r1)
  expect r3

-- `add_offset_and_size!((offset) + (size))`
unfoldable pub add_offset_and_size :
    PageAlignedOffsetT → PageAllocationSizeT → Outcome PageAlignedOffsetT
unfolding size_to_offset Offset.add Offset.new
add_offset_and_size offset size = do r3 ← size_to_offset size; Offset.add offset r3

-- `add_offset_and_size!((offset) - (size))`
unfoldable pub sub_offset_and_size :
    PageAlignedOffsetT → PageAllocationSizeT → Outcome PageAlignedOffsetT
unfolding size_to_offset Offset.sub Offset.new
sub_offset_and_size offset size = do r3 ← size_to_offset size; Offset.sub offset r3

-- The order of offsets.
abbrev pub leb_offset : PageAlignedOffsetT → PageAlignedOffsetT → Bool
leb_offset o p = leb (pos_part o.value + neg_part p.value) (pos_part p.value + neg_part o.value)

abbrev pub ltb_offset : PageAlignedOffsetT → PageAlignedOffsetT → Bool
ltb_offset o p = ltb (pos_part o.value + neg_part p.value) (pos_part p.value + neg_part o.value)

-- An `isize` becomes a `usize`, and panics below zero.
abbrev pub to_usize : ℤ → Outcome ℕ
to_usize z = do assert (leb (neg_part z) 0); ok (pos_part z)

pub data GuardPageType : Type 0 where
  stack_limit null_pointer : GuardPageType

pub data AllocationType : Type 0 where
  uninit_mem zeroed_mem : AllocationType
  guard_page : GuardPageType → AllocationType

unfoldable pub needs_initialisation : AllocationType → Bool
needs_initialisation uninit_mem = false
needs_initialisation (guard_page gptype) = false
needs_initialisation zeroed_mem = true

mutual
  pub data BackingType : Type 0 where
    phys_mem_exclusive : PhysicalMemoryAllocation → BackingType
    phys_mem_shared : PhysicalMemoryAllocation → (offset : ℕ) → BackingType
    copy_on_write : BackingSection → BackingType
    reserved_mem : BackingType

  pub data BackingSection : Type 0 where
    backing_section : BackingType → (size : PageAllocationSizeT) → BackingSection

unfoldable mutual
  pub get_phys_addr : BackingSection → Option ℕ
  get_phys_addr (backing_section mode size) = backing_addr mode

  pub backing_addr : BackingType → Option ℕ
  backing_addr (phys_mem_exclusive alloc) = some alloc.addr
  backing_addr (phys_mem_shared allocation offset) = some (allocation.addr + offset)
  backing_addr (copy_on_write cow) = get_phys_addr cow
  backing_addr reserved_mem = none

abbrev pub get_size : BackingSection → PageAllocationSizeT
get_size (backing_section mode size) = size

unfoldable pub is_read_only : BackingSection → Bool
is_read_only (backing_section (phys_mem_exclusive alloc) size) = false
is_read_only (backing_section (phys_mem_shared allocation offset) size) = false
is_read_only (backing_section (copy_on_write cow) size) = true
is_read_only (backing_section reserved_mem size) = false

pub record AllocationBacking : Type 0 where
  pub sections : List BackingSection
  pub requested_type : AllocationType
  pub offset : PageAlignedOffsetT
  pub total_size : PageAllocationSizeT

pub data AbsentPagesItemA : Type 0 where
  -- `new_normal`: the allocation, its slot, and the offset
  normal_allocation : (allocation virt_slot : ℕ) → (offset : PageAlignedOffsetT) → AbsentPagesItemA
  static_guard_page : GuardPageType → AbsentPagesItemA

pub record Memory : Type 1 where
  pub World : Type 0
  -- `Box<dyn AnyPageAllocation>`
  pub PageAllocation : Type 0
  pub start : PageAllocation → Outcome PageAlignedAddressT
  pub size : PageAllocation → Outcome PageAllocationSizeT
  pub pt_phys_addr : World → PageAllocation → Outcome ℕ
  pub set_base_addr : World → PageAllocation → ℕ → PageFlags → Outcome World
  pub set_absent : World → PageAllocation → ℕ → Outcome World
  pub split_dyn :
      World
      → PageAllocation
      → PageAllocationSizeT
      → Outcome (World × PageAllocation × PageAllocation)
  pub alloc_downwards_dyn :
      World → PageAllocation → PageAllocationSizeT → Outcome (World × Option PageAllocation)
  pub drop_page_allocation : World → PageAllocation → Outcome World
  -- KERNEL_PTABLE
  pub kernel_allocate :
      World
      → PageAllocationSizeT
      → List PageAllocationStrategy
      → Outcome (World × Option PageAllocation)
  pub kernel_allocate_at :
      World → PageAlignedAddressT → PageAllocationSizeT → Outcome (World × Option PageAllocation)
  -- memory/physical.rs
  pub palloc : World → PageAllocationSizeT → Outcome (World × Option PhysicalMemoryAllocation)
  pub drop_physical : World → PhysicalMemoryAllocation → Outcome World
  -- the drop of a backing; of what is shared, the last holder drops it
  pub drop_backing : World → BackingType → Outcome World
  -- ABSENT_PAGES_TABLE: a new descriptor, by its values of slot T and A; its handle is its number
  pub new_descriptor : World → (pt_phys_addr virt_addr : ℕ) → AbsentPagesItemA → Outcome (World × ℕ)
  pub drop_descriptor : World → ℕ → Outcome World
  -- `core::ptr::write_bytes(ptr, 0, count)`
  pub write_zeroes : World → (ptr count : ℕ) → Outcome World

module _ (m : Memory) where
  pub record VirtualAllocation : Type 0 where
    pub allocation : m.PageAllocation
    pub size : PageAllocationSizeT
    pub absent_pages_table_handle : ℕ

  pub record VirtualSlot : Type 0 where
    pub allocations : List VirtualAllocation
    pub default_flags : PageFlags
    pub offset : PageAlignedOffsetT

  pub record UnifiedAllocationInner : Type 0 where
    pub virt_slots : List (Option VirtualSlot)
    pub backing : AllocationBacking

  -- `VirtualAllocation::new`
  unfoldable pub new_virtual :
      m.World → m.PageAllocation → AbsentPagesItemA → Outcome (m.World × VirtualAllocation)
  unfolding Address.get
  new_virtual world allocation meta_a = do
    size ← m.size allocation
    pt ← m.pt_phys_addr world allocation
    start ← m.start allocation
    virt_addr ← Address.get start
    (world, handle) ← m.new_descriptor world pt virt_addr meta_a
    ok (world, record { allocation = allocation; size = size; absent_pages_table_handle = handle })

  -- The fields of a `VirtualAllocation` are dropped in order.
  unfoldable pub drop_virtual : m.World → VirtualAllocation → Outcome m.World
  drop_virtual world virt = do
    world ← m.drop_page_allocation world virt.allocation
    m.drop_descriptor world virt.absent_pages_table_handle
