-- ===== src/Paging/Locked/Handles.antt =====
-- kernel/rust/src/memory/paging/api.rs, `PageAllocation`: what its owner calls.
use cookie_os.Base.{
  ℕ, ◌+◌, ◌-◌, leb, ◌==◌, Option, none, some, List, Outcome, ok, ◌>>=◌, ◌>>◌, assert, expect,
}
use cookie_os.Paging.{is_usize}
use cookie_os.Paging.AllocationSize as Size
use cookie_os.Paging.AllocationSize.{PageAllocationSizeT}
use cookie_os.Paging.AlignedAddress as Address
use cookie_os.Paging.AlignedAddress.{PageAlignedAddressT}
use cookie_os.Paging.Flags.{PageFlags}
use cookie_os.Paging.Strategy.{PageAllocationStrategy, kallocation_dyn_mmio}
use cookie_os.Paging.Allocations.{PartialPageAllocation, start_addr, end_addr, size}
use cookie_os.Paging.FirstFit.{Generics}
use cookie_os.Paging.Locked.{
  Addresses, LevelBelow, LpaMetadata, LockedPageAllocator, guard_allocate, guard_allocate_at,
  guard_dealloc, guard_set_base_addr, guard_set_absent, guard_split, write_options, invalidate_tlb,
}

pub record PageAllocation : Type 0 where
  pub allocation : PartialPageAllocation
  pub metadata : LpaMetadata
  pub baseaddr_offset : ℕ

abbrev pub normalize : PageAllocation → PageAllocation
normalize self = record self { baseaddr_offset = 0 }

module _ (addresses : Addresses) where
  unfoldable pub start : PageAllocation → Outcome PageAlignedAddressT
  unfolding start_addr Address.new
  start self = do
    assert (is_usize (start_addr self.allocation + self.metadata.offset))
    Address.new (addresses.canonical_addr (start_addr self.allocation + self.metadata.offset))

  unfoldable pub base : PageAllocation → Outcome ℕ
  unfolding start Address.get
  base self = do
    first ← start self
    addr ← Address.get first
    assert (is_usize (addr + self.baseaddr_offset))
    ok (addr + self.baseaddr_offset)

  unfoldable pub end_ : PageAllocation → Outcome PageAlignedAddressT
  unfolding end_addr Address.new
  end_ self = do
    assert (is_usize (end_addr self.allocation + self.metadata.offset))
    Address.new (addresses.canonical_addr (end_addr self.allocation + self.metadata.offset))

  unfoldable pub allocation_size : PageAllocation → Outcome PageAllocationSizeT
  unfolding size Size.new_checked Size.new
  allocation_size self = do checked ← Size.new_checked (size self.allocation); expect checked

  unfoldable pub length_after_base : PageAllocation → Outcome ℕ
  unfolding allocation_size Size.get
  length_after_base self = do
    total ← allocation_size self
    n ← Size.get total
    assert (leb self.baseaddr_offset n)
    ok (n - self.baseaddr_offset)

  module _ (g : Generics) where
    -- `PageAllocation::new`
    abbrev pub new_allocation : LockedPageAllocator g → PartialPageAllocation → PageAllocation
    new_allocation lpa allocation = record {
      allocation = allocation;
      metadata = lpa.meta;
      baseaddr_offset = 0;
    }

    unfoldable pub locked_allocate :
        LockedPageAllocator g
        → PageAllocationSizeT
        → List PageAllocationStrategy
        → Outcome (LockedPageAllocator g × Option PageAllocation)
    unfolding Size.get guard_allocate
    locked_allocate lpa size alloc_strat = do
      n ← Size.get size
      (lpa, allocated) ← guard_allocate g lpa n alloc_strat
      elim allocated [
        | none ↦ ok (lpa, none)
        | some allocation ↦ ok (lpa, some (new_allocation lpa allocation))
      ]

    -- The last assertion is that of a debug build.
    unfoldable pub locked_allocate_at :
        LockedPageAllocator g
        → PageAlignedAddressT
        → PageAllocationSizeT
        → Outcome (LockedPageAllocator g × Option PageAllocation)
    unfolding Address.get Size.get guard_allocate_at start
    locked_allocate_at lpa addr size = do
      a ← Address.get addr
      n ← Size.get size
      (lpa, allocated) ← guard_allocate_at g lpa a n
      elim allocated [
        | none ↦ ok (lpa, none)
        | some allocation ↦ do
          let palloc = new_allocation lpa allocation
          first ← start palloc
          first_addr ← Address.get first
          assert (a == first_addr)
          ok (lpa, some palloc)
      ]

    -- The strategy of the caller is not used.
    unfoldable pub allocate_alignedoffset :
        LockedPageAllocator g
        → (size : ℕ) → List PageAllocationStrategy
        → (phys_addr : ℕ) → Outcome (LockedPageAllocator g × Option PageAllocation)
    unfolding Address.new_rounded_with_excess Size.new_rounded_with_excess locked_allocate
    allocate_alignedoffset lpa size alloc_strat phys_addr = do
      (phys_addr_aligned, allocation_offset) ← Address.new_rounded_with_excess phys_addr
      assert (is_usize (size + allocation_offset))
      (rounded, excess) ← Size.new_rounded_with_excess (size + allocation_offset)
      (lpa, allocated) ← locked_allocate lpa rounded kallocation_dyn_mmio
      elim allocated [
        | none ↦ ok (lpa, none)
        | some allocation ↦ ok (
          lpa,
          some (record allocation {
            baseaddr_offset = allocation.baseaddr_offset + allocation_offset;
          }),
        )
      ]

    unfoldable pub alloc_downwards :
        LockedPageAllocator g
        → PageAllocation
        → PageAllocationSizeT
        → Outcome (LockedPageAllocator g × Option PageAllocation)
    unfolding start Address.get Size.get Address.new locked_allocate_at
    alloc_downwards lpa self size = do
      first ← start self
      a ← Address.get first
      n ← Size.get size
      assert (leb n a)
      target ← Address.new (a - n)
      locked_allocate_at lpa target size

    module _ (below : LevelBelow g.st) where
      unfoldable pub handle_set_base_addr :
          LockedPageAllocator g
          → PageAllocation
          → (base_addr : ℕ) → PageFlags
          → Outcome (LockedPageAllocator g)
      unfolding guard_set_base_addr
      handle_set_base_addr lpa self base_addr flags = do
        assert (leb self.baseaddr_offset base_addr)
        guard_set_base_addr g addresses below (write_options g lpa) lpa self.allocation
            self.metadata.offset (base_addr - self.baseaddr_offset) flags

      unfoldable pub handle_set_absent :
          LockedPageAllocator g → PageAllocation → (held : ℕ) → Outcome (LockedPageAllocator g)
      unfolding guard_set_absent
      handle_set_absent lpa self held =
          guard_set_absent g addresses below (write_options g lpa) lpa self.allocation
            self.metadata.offset held

      -- Both parts keep the offset of the base.
      unfoldable pub handle_split :
          LockedPageAllocator g
          → PageAllocation
          → PageAllocationSizeT
          → Outcome (LockedPageAllocator g × PageAllocation × PageAllocation)
      unfolding Size.get guard_split
      handle_split lpa self mid = do
        n ← Size.get mid
        (lpa, lhs, rhs) ← guard_split g addresses below lpa self.allocation n
        ok (lpa, record self { allocation = lhs }, record self { allocation = rhs })

      unfoldable pub flush_tlb :
          LockedPageAllocator g → PageAllocation → Outcome (LockedPageAllocator g)
      unfolding invalidate_tlb
      flush_tlb lpa self = invalidate_tlb g addresses below lpa self.allocation self.metadata.offset

      -- `Drop`
      unfoldable pub drop_allocation :
          LockedPageAllocator g → PageAllocation → Outcome (LockedPageAllocator g)
      unfolding guard_dealloc
      drop_allocation lpa self =
          guard_dealloc g addresses below (write_options g lpa) lpa self.allocation
            self.metadata.offset
