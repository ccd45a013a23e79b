-- ===== src/Unified/Mapping.antt =====
-- kernel/rust/src/memory/unified.rs: the slots for places in virtual memory, and what the handles
-- `UnifiedAllocation`, `UnifiedVirtGuard` and `OffsetMappedAllocation` do. Each call holds the lock of
-- the allocation throughout.
use cookie_os.Base.{
  ℕ, zero, suc, ◌+◌, false, ◌==◌, if◌then◌else◌, Option, none, some, List, [], ◌∷◌, ◌++◌, length,
  Outcome, ok, panic, ◌>>=◌, ◌>>◌, assert, expect,
}
use cookie_os.Paging.{is_usize}
use cookie_os.Paging.AllocationSize as Size
use cookie_os.Paging.AllocationSize.{PageAllocationSizeT}
use cookie_os.Paging.AlignedOffset as Offset
use cookie_os.Paging.AlignedOffset.{PageAlignedOffsetT}
use cookie_os.Paging.AlignedAddress as Address
use cookie_os.Paging.AlignedAddress.{PageAlignedAddressT}
use cookie_os.Paging.Flags.{PageFlags}
use cookie_os.Physical.{PhysicalMemoryAllocation}
use cookie_os.Unified.{
  Memory, VirtualAllocation, VirtualSlot, UnifiedAllocationInner, normal_allocation, new_virtual,
}
use cookie_os.Unified.Remap.Pages.{remap_pages, set_slot, drop_all}
use cookie_os.Unified.Vmem.{expand_vmem}
use cookie_os.Unified.Expand.{expand_downwards, expand_upwards}

-- `KERNEL_PTABLE_VADDR` of memory/paging/global_pages.rs
abbrev kernel_ptable_vaddr : ℕ
kernel_ptable_vaddr = 18446603336221196288

module _ (m : Memory) where
  -- The first slot that is empty, from index `i`, or the end.
  unfoldable pub empty_slot : (i : ℕ) → List (Option (VirtualSlot m)) → ℕ
  empty_slot i [] = i
  empty_slot i (none ∷ slots) = i
  empty_slot i (some slot ∷ slots) = empty_slot (i + 1) slots

  -- The slots, with an empty one at that index.
  abbrev pub with_empty_slot : List (Option (VirtualSlot m)) → ℕ → List (Option (VirtualSlot m))
  with_empty_slot slots idx = if idx == length slots then slots ++ none ∷ [] else slots

  unfoldable pub new_virt_mapping :
      m.World
      → UnifiedAllocationInner m
      → (self_arc : ℕ) → m.PageAllocation
      → PageFlags
      → PageAlignedOffsetT
      → Outcome (m.World × UnifiedAllocationInner m × ℕ)
  unfolding empty_slot Offset.add Offset.new new_virtual set_slot remap_pages
  new_virt_mapping world self self_arc allocation flags offset = do
    let slot_idx = empty_slot 0 self.virt_slots
    let virt_slots = with_empty_slot self.virt_slots slot_idx
    offset ← Offset.add self.backing.offset offset
    (world, virt) ← new_virtual m world allocation (normal_allocation self_arc slot_idx offset)
    let slot : VirtualSlot m = record {
      allocations = virt ∷ [];
      default_flags = flags;
      offset = offset;
    }
    (world, self) ←
        remap_pages m world (record self { virt_slots = set_slot m virt_slots slot_idx slot })
          self_arc (some slot_idx) false
    ok (world, self, slot_idx)

  -- `virt_slots[slot].take()`: what was there, and what is left. It panics out of range.
  unfoldable pub take_slot :
      List (Option (VirtualSlot m))
      → ℕ
      → Outcome (Option (VirtualSlot m) × List (Option (VirtualSlot m)))
  take_slot [] i = panic
  take_slot (slot ∷ slots) zero = ok (slot, none ∷ slots)
  take_slot (slot ∷ slots) (suc i) = do (taken, slots) ← take_slot slots i; ok (taken, slot ∷ slots)

  -- The assertion is that of a debug build.
  unfoldable pub clear_virt_mapping :
      m.World → UnifiedAllocationInner m → ℕ → Outcome (m.World × UnifiedAllocationInner m)
  unfolding take_slot drop_all
  clear_virt_mapping world self slot = do
    (prev_value, virt_slots) ← take_slot self.virt_slots slot
    prev_value ← expect prev_value
    world ← drop_all m world prev_value.allocations
    ok (world, record self { virt_slots = virt_slots })

  -- `UnifiedAllocation::expand_downwards`; if there is no memory, the places are still looked after.
  unfoldable pub unified_expand_downwards :
      m.World
      → UnifiedAllocationInner m
      → (self_arc : ℕ) → PageAllocationSizeT
      → Outcome (m.World × UnifiedAllocationInner m × List ℕ)
  unfolding expand_downwards expand_vmem
  unified_expand_downwards world inner self_arc size = do
    (world, inner, done) ← expand_downwards m world inner size
    expand_vmem m world inner self_arc

  unfoldable pub unified_expand_upwards :
      m.World
      → UnifiedAllocationInner m
      → (self_arc : ℕ) → PageAllocationSizeT
      → Outcome (m.World × UnifiedAllocationInner m × List ℕ)
  unfolding expand_upwards expand_vmem
  unified_expand_upwards world inner self_arc size = do
    (world, inner, done) ← expand_upwards m world inner size
    expand_vmem m world inner self_arc

  -- `UnifiedVirtGuard::slot_mut`, as a read
  unfoldable pub slot_at : List (Option (VirtualSlot m)) → ℕ → Outcome (VirtualSlot m)
  slot_at [] i = panic
  slot_at (slot ∷ slots) zero = expect slot
  slot_at (slot ∷ slots) (suc i) = slot_at slots i

  unfoldable pub total_of : (total : ℕ) → List (VirtualAllocation m) → Outcome ℕ
  unfolding Size.get
  total_of total [] = ok total
  total_of total (x ∷ allocations) = do
    n ← Size.get x.size
    assert (is_usize (total + n))
    total_of (total + n) allocations

  -- The first element of a deque; `unwrap` panics.
  abbrev pub front : List (VirtualAllocation m) → Outcome (VirtualAllocation m)
  front [] = panic
  front (x ∷ rest) = ok x

  -- `UnifiedVirtGuard::get_bounds`
  unfoldable pub get_bounds :
      UnifiedAllocationInner m
      → (slot_index : ℕ) → Outcome (PageAlignedAddressT × PageAllocationSizeT)
  unfolding slot_at total_of Size.new
  get_bounds inner slot_index = do
    slot ← slot_at inner.virt_slots slot_index
    first ← front slot.allocations
    start ← m.start first.allocation
    total ← total_of 0 slot.allocations
    size ← Size.new total
    ok (start, size)

  pub record OffsetMappedAllocation : Type 0 where
    pub virt : m.PageAllocation
    pub phys : PhysicalMemoryAllocation

  -- `OffsetMappedAllocation::alloc_new`; the assertion is that of a debug build.
  unfoldable pub offset_alloc_new :
      m.World
      → PageAllocationSizeT
      → PageFlags
      → Outcome (m.World × Option (OffsetMappedAllocation))
  unfolding Address.new Size.new_checked Size.new
  offset_alloc_new world size flags = do
    (world, allocated) ← m.palloc world size
    elim allocated [
      | none ↦ ok (world, none)
      | some phys ↦ do
        assert (is_usize (phys.addr + kernel_ptable_vaddr))
        virt_addr ← Address.new (phys.addr + kernel_ptable_vaddr)
        (world, virt) ← m.kernel_allocate_at world virt_addr (record { value = phys.size })
        virt ← expect virt
        world ← m.set_base_addr world virt phys.addr flags
        ok (world, some (record { virt = virt; phys = phys }))
    ]

  unfoldable pub offset_get_phys_addr : OffsetMappedAllocation → Outcome PageAlignedAddressT
  unfolding Address.new
  offset_get_phys_addr self = Address.new self.phys.addr

  -- The assertion is that of a debug build.
  unfoldable pub offset_get_size : OffsetMappedAllocation → Outcome PageAllocationSizeT
  offset_get_size self = do
    size ← m.size self.virt
    assert (self.phys.size == size.value)
    ok (record { value = self.phys.size })

  -- Dropped: the place in virtual memory first.
  unfoldable pub drop_offset_mapped : m.World → OffsetMappedAllocation → Outcome m.World
  drop_offset_mapped world self = do
    world ← m.drop_page_allocation world self.virt
    m.drop_physical world self.phys
