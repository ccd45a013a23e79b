-- ===== src/Unified/Stack.antt =====
-- kernel/rust/src/memory/unified.rs, `AllocatedStack`: a stack that grows downwards, with a guard page
-- below it. It owns both of its allocations.
pub mod Grow
use cookie_os.Base.{
  ℕ, ◌+◌, ◌-◌, ◌≡◌, refl, arith, Bool, true, false, leb, Option, none, some, List, [], ◌∷◌, Outcome,
  ok, panic, ◌>>=◌, ◌>>◌, assert,
}
use cookie_os.Base.Int.{pos}
use cookie_os.Paging.{is_usize}
use cookie_os.Paging.AllocationSize as Size
use cookie_os.Paging.AllocationSize.{PageAllocationSizeT}
use cookie_os.Paging.AlignedOffset as Offset
use cookie_os.Paging.AlignedOffset.{PageAlignedOffsetT}
use cookie_os.Paging.AlignedAddress as Address
use cookie_os.Paging.AlignedAddress.{PageAlignedAddressT}
use cookie_os.Paging.Flags.{PageFlags}
use cookie_os.Paging.Strategy.{PageAllocationStrategy}
use cookie_os.Unified.{
  uninit_mem, guard_page, stack_limit, Memory, VirtualAllocation, VirtualSlot,
  UnifiedAllocationInner, BackingSection, backing_section, normal_allocation, sub_offset_and_size,
  new_virtual,
}
use cookie_os.Unified.Remap.Pages.{set_slot}
use cookie_os.Unified.Vmem.{contains}
use cookie_os.Unified.Expand.{add_sizes, alloc_new}
use cookie_os.Unified.Mapping.{
  new_virt_mapping, clear_virt_mapping, unified_expand_downwards, slot_at, front, get_bounds,
}

module _ (m : Memory) where
  -- A `UnifiedVirtGuard`, with the allocation that it holds.
  pub record VirtGuard : Type 0 where
    pub inner : UnifiedAllocationInner m
    pub arc : ℕ
    pub slot_index : ℕ

  pub record AllocatedStack : Type 0 where
    pub stack_main : VirtGuard
    pub guard_page : VirtGuard
    pub page_flags : PageFlags
    pub guard_size : PageAllocationSizeT

  -- `UnifiedAllocation::map_vmem`
  unfoldable pub map_vmem :
      m.World
      → UnifiedAllocationInner m
      → (arc : ℕ) → m.PageAllocation
      → PageFlags
      → PageAlignedOffsetT
      → Outcome (m.World × VirtGuard)
  unfolding new_virt_mapping
  map_vmem world inner arc virt_allocation flags offset = do
    (world, inner, slot) ← new_virt_mapping m world inner arc virt_allocation flags offset
    ok (world, record { inner = inner; arc = arc; slot_index = slot })

  -- The drop of an allocation that is mapped nowhere.
  unfoldable pub drop_sections : m.World → List BackingSection → Outcome m.World
  drop_sections world [] = ok world
  drop_sections world (backing_section mode size ∷ sections) = do
    world ← m.drop_backing world mode
    drop_sections world sections

  -- `alloc_new` once there is memory. The allocator's `allocate` is an argument.
  unfoldable pub place_stack :
      (allocate : m.World
        → PageAllocationSizeT
        → List PageAllocationStrategy
        → Outcome (m.World × Option m.PageAllocation))
      (main_arc guard_arc : ℕ)
      → m.World
      → (main_alloc guard_alloc : UnifiedAllocationInner m)
      → (stack_size guard_size : PageAllocationSizeT) → List PageAllocationStrategy
      → PageFlags
      → Outcome (m.World × Option AllocatedStack)
  unfolding add_sizes drop_sections map_vmem Offset.new
  place_stack allocate main_arc guard_arc world main_alloc guard_alloc stack_size guard_size
        strategy page_flags =
      do
        size_total ← add_sizes stack_size guard_size
        (world, allocated) ← allocate world size_total strategy
        elim allocated [
          | none ↦ do
            world ← drop_sections world guard_alloc.backing.sections
            world ← drop_sections world main_alloc.backing.sections
            ok (world, none)
          | some virt_total ↦ do
            (world, virt_guard, virt_main) ← m.split_dyn world virt_total guard_size
            zero_offset ← Offset.new (pos 0)
            (world, vu_guard) ←
                map_vmem world guard_alloc guard_arc virt_guard page_flags zero_offset
            (world, vu_main) ← map_vmem world main_alloc main_arc virt_main page_flags zero_offset
            ok (
              world,
              some (record {
                stack_main = vu_main;
                guard_page = vu_guard;
                page_flags = page_flags;
                guard_size = guard_size;
              }),
            )
        ]

  unfoldable pub stack_alloc_new :
      (allocate : m.World
        → PageAllocationSizeT
        → List PageAllocationStrategy
        → Outcome (m.World × Option m.PageAllocation))
      (main_arc guard_arc : ℕ)
      → m.World
      → (stack_size guard_size : PageAllocationSizeT) → List PageAllocationStrategy
      → PageFlags
      → Outcome (m.World × Option AllocatedStack)
  unfolding alloc_new place_stack drop_sections
  stack_alloc_new allocate main_arc guard_arc world stack_size guard_size strategy page_flags = do
    (world, main_alloc) ← alloc_new m world uninit_mem stack_size
    elim main_alloc [
      | none ↦ ok (world, none)
      | some main_alloc ↦ do
        (world, guard_alloc) ← alloc_new m world (guard_page stack_limit) guard_size
        elim guard_alloc [
          | none ↦ do world ← drop_sections world main_alloc.backing.sections; ok (world, none)
          | some guard_alloc ↦
              place_stack allocate main_arc guard_arc world main_alloc guard_alloc stack_size
                guard_size strategy page_flags
        ]
    ]

  unfoldable pub bottom_vaddr : AllocatedStack → Outcome PageAlignedAddressT
  unfolding get_bounds Address.get Size.get Address.new
  bottom_vaddr self = do
    (max_top, size) ← get_bounds m self.stack_main.inner self.stack_main.slot_index
    top ← Address.get max_top
    n ← Size.get size
    assert (is_usize (top + n))
    Address.new (top + n)
