-- ===== src/Unified/Expand.antt =====
-- kernel/rust/src/memory/unified.rs: new backing, and how an allocation grows.
pub mod Covered
use cookie_os.Base.{
  ℕ, ◌+◌, Bool, true, false, leb, ◌==◌, ◌||◌, not, if◌then◌else◌, Option, none, some, List, [], ◌∷◌,
  ◌++◌, Outcome, ok, panic, ◌>>=◌, ◌>>◌, assert, expect,
}
use cookie_os.Base.Int.{pos, negsuc, pos_part}
use cookie_os.Paging.{is_usize}
use cookie_os.Paging.AllocationSize as Size
use cookie_os.Paging.AllocationSize.{PageAllocationSizeT}
use cookie_os.Paging.AlignedOffset as Offset
use cookie_os.Paging.AlignedOffset.{PageAlignedOffsetT}
use cookie_os.Paging.AlignedAddress as Address
use cookie_os.Paging.Flags.{PageFlags, no_tflags, no_mflags}
use cookie_os.Paging.Strategy.{kallocation_kernel_generaldyn}
use cookie_os.Unified.{
  AllocationType, uninit_mem, zeroed_mem, guard_page, needs_initialisation, Memory,
  VirtualAllocation, VirtualSlot, UnifiedAllocationInner, BackingType, BackingSection,
  phys_mem_exclusive, reserved_mem, backing_section, AllocationBacking, get_size, normal_allocation,
  add_offset_and_size, sub_offset_and_size, new_virtual,
}
use cookie_os.Unified.Remap.Pages.{remap_pages}

-- `pageFlags!(t:WRITEABLE,m:PINNED)`
abbrev pinned_writeable : PageFlags
pinned_writeable = record {
  tflags = record no_tflags { writeable = true };
  mflags = record no_mflags { pinned = true };
}

-- `PageAllocationSizeT::new(total.get() + size.get())`
unfoldable pub add_sizes : (total size : PageAllocationSizeT) → Outcome PageAllocationSizeT
unfolding Size.get Size.new
add_sizes total size = do
  t ← Size.get total
  n ← Size.get size
  assert (is_usize (t + n))
  Size.new (t + n)

module _ (m : Memory) where
  -- `AllocationType::_map_into_vmem`
  unfoldable pub map_into_vmem :
      m.World → (phys_addr : ℕ) → PageAllocationSizeT → Outcome (m.World × m.PageAllocation × ℕ)
  unfolding Address.get
  map_into_vmem world phys_addr size = do
    (world, allocated) ← m.kernel_allocate world size (kallocation_kernel_generaldyn)
    vmap ← expect allocated
    world ← m.set_base_addr world vmap phys_addr pinned_writeable
    start ← m.start vmap
    ptr ← Address.get start
    ok (world, vmap, ptr)

  unfoldable pub initialise :
      m.World → AllocationType → (phys_addr : ℕ) → PageAllocationSizeT → Outcome m.World
  unfolding needs_initialisation map_into_vmem Size.get
  initialise world btype phys_addr size = if not (needs_initialisation btype) then ok world else (do
    (world, vmap, ptr) ← map_into_vmem world phys_addr size
    count ← Size.get size
    world ← m.write_zeroes world ptr count
    m.drop_page_allocation world vmap)

  unfoldable pub allocate_memory :
      m.World → AllocationType → PageAllocationSizeT → Outcome (m.World × Option BackingType)
  unfolding initialise
  allocate_memory world btype size = do
    (world, allocated) ← m.palloc world size
    elim allocated [
      | none ↦ ok (world, none)
      | some phys_allocation ↦ do
        assert (leb size.value phys_allocation.size)
        world ← initialise world btype phys_allocation.addr size
        ok (world, some (phys_mem_exclusive phys_allocation))
    ]

  unfoldable pub allocate_new_backing :
      m.World → AllocationType → PageAllocationSizeT → Outcome (m.World × Option BackingType)
  unfolding allocate_memory
  allocate_new_backing world uninit_mem size = allocate_memory world uninit_mem size
  allocate_new_backing world zeroed_mem size = allocate_memory world zeroed_mem size
  allocate_new_backing world (guard_page gptype) size = ok (world, some reserved_mem)

  -- `_alloc_new`
  unfoldable pub alloc_new :
      m.World
      → AllocationType
      → PageAllocationSizeT
      → Outcome (m.World × Option (UnifiedAllocationInner m))
  unfolding allocate_new_backing Offset.new
  alloc_new world btype size = do
    (world, allocated) ← allocate_new_backing world btype size
    elim allocated [
      | none ↦ ok (world, none)
      | some backing_item ↦ do
        offset ← Offset.new (pos 0)
        ok (
          world,
          some (record {
            virt_slots = none ∷ [];
            backing = record {
              sections = backing_section backing_item size ∷ [];
              requested_type = btype;
              offset = offset;
              total_size = size;
            };
          }),
        )
    ]

  unfoldable pub expand_downwards :
      m.World
      → UnifiedAllocationInner m
      → PageAllocationSizeT
      → Outcome (m.World × UnifiedAllocationInner m × Bool)
  unfolding allocate_new_backing add_sizes sub_offset_and_size
  expand_downwards world self size = do
    (world, allocated) ← allocate_new_backing world self.backing.requested_type size
    elim allocated [
      | none ↦ ok (world, self, false)
      | some allocation ↦ do
        total_size ← add_sizes self.backing.total_size size
        offset ← sub_offset_and_size self.backing.offset size
        let backing = record self.backing {
          sections = backing_section allocation size ∷ self.backing.sections;
          total_size = total_size;
          offset = offset;
        }
        ok (world, record self { backing = backing }, true)
    ]

  unfoldable pub expand_upwards :
      m.World
      → UnifiedAllocationInner m
      → PageAllocationSizeT
      → Outcome (m.World × UnifiedAllocationInner m × Bool)
  unfolding allocate_new_backing add_sizes
  expand_upwards world self size = do
    (world, allocated) ← allocate_new_backing world self.backing.requested_type size
    elim allocated [
      | none ↦ ok (world, self, false)
      | some allocation ↦ do
        total_size ← add_sizes self.backing.total_size size
        let backing = record self.backing {
          sections = self.backing.sections ++ backing_section allocation size ∷ [];
          total_size = total_size;
        }
        ok (world, record self { backing = backing }, true)
    ]

  -- The fold over the sections that gives the top offset.
  unfoldable pub top_of_sections :
      PageAlignedOffsetT → List BackingSection → Outcome PageAlignedOffsetT
  unfolding add_offset_and_size
  top_of_sections offset [] = ok offset
  top_of_sections offset (section ∷ sections) = do
    offset ← add_offset_and_size offset (get_size section)
    top_of_sections offset sections
