-- ===== src/Unified/Stack/Grow.antt =====
-- kernel/rust/src/memory/unified.rs, `AllocatedStack::expand`.
use cookie_os.Base.{
  ℕ, ◌+◌, ◌-◌, ◌≡◌, refl, arith, Bool, true, false, leb, Option, none, some, List, [], ◌∷◌, Outcome,
  ok, panic, ◌>>=◌, ◌>>◌, assert,
}
use cookie_os.Base.Int.{pos}
use cookie_os.Paging.{is_usize}
use cookie_os.Paging.AllocationSize as Size
use cookie_os.Paging.AllocationSize.{PageAllocationSizeT}
use cookie_os.Paging.AlignedOffset as Offset
use cookie_os.Paging.AlignedOffset.{PageAlignedOffsetT}
use cookie_os.Unified.{
  Memory, VirtualAllocation, VirtualSlot, normal_allocation, sub_offset_and_size, new_virtual,
}
use cookie_os.Unified.Remap.Pages.{set_slot}
use cookie_os.Unified.Vmem.{contains}
use cookie_os.Unified.Mapping.{clear_virt_mapping, unified_expand_downwards, slot_at, front}
use cookie_os.Unified.Stack.{AllocatedStack, map_vmem}

module _ (m : Memory) where
  -- The sizes at the start of `expand`: `unwrap_or` gets its default as a value.
  unfoldable pub expand_amounts :
      (amount guard_size : PageAllocationSizeT)
      → Outcome (Option PageAllocationSizeT × PageAllocationSizeT)
  unfolding Size.get Size.new Size.new_checked
  expand_amounts amount guard_size = do
    n ← Size.get amount
    g ← Size.get guard_size
    assert (leb g n)
    extra_amount ← Size.new_checked (n - g)
    default_size ← Size.new 0
    e ← Size.get (elim extra_amount [ none ↦ default_size | some extra ↦ extra ])
    assert (is_usize (e + g))
    total_to_allocate ← Size.new (e + g)
    ok (extra_amount, total_to_allocate)

  -- A place that lies directly below the slot becomes its first allocation.
  unfoldable pub push_below :
      m.World
      → (arc slot_index : ℕ) → VirtualSlot m
      → m.PageAllocation
      → PageAllocationSizeT
      → Outcome (m.World × VirtualSlot m)
  unfolding sub_offset_and_size new_virtual
  push_below world arc slot_index slot allocation size = do
    new_offset ← sub_offset_and_size slot.offset size
    (world, virt) ← new_virtual m world allocation (normal_allocation arc slot_index new_offset)
    ok (world, record slot { offset = new_offset; allocations = virt ∷ slot.allocations })

  -- The places of the old guard page, from the last one.
  unfoldable pub push_guards :
      m.World
      → (arc slot_index : ℕ) → VirtualSlot m
      → List (VirtualAllocation m)
      → Outcome (m.World × VirtualSlot m)
  unfolding push_below
  push_guards world arc slot_index slot [] = ok (world, slot)
  push_guards world arc slot_index slot (gva ∷ guards) = do
    (world, slot) ← push_guards world arc slot_index slot guards
    (world, slot) ← push_below world arc slot_index slot gva.allocation gva.size
    world ← m.drop_descriptor world gva.absent_pages_table_handle
    ok (world, slot)

  -- The new guard page, and what lies between it and the old one.
  unfoldable pub split_new :
      m.World
      → m.PageAllocation
      → (guard_size : PageAllocationSizeT) → (extra_amount : Option PageAllocationSizeT)
      → Outcome (m.World × m.PageAllocation × Option m.PageAllocation)
  split_new world new_alloc guard_size none = ok (world, new_alloc, none)
  split_new world new_alloc guard_size (some extra) = do
    (world, lhs, rhs) ← m.split_dyn world new_alloc guard_size
    ok (world, lhs, some rhs)

  unfoldable pub push_extra :
      m.World
      → (arc slot_index : ℕ) → VirtualSlot m
      → Option m.PageAllocation
      → Outcome (m.World × VirtualSlot m)
  unfolding push_below
  push_extra world arc slot_index slot none = ok (world, slot)
  push_extra world arc slot_index slot (some extra_main_virt) = do
    size ← m.size extra_main_virt
    push_below world arc slot_index slot extra_main_virt size

  unfoldable pub grow_stack :
      m.World
      → AllocatedStack m
      → (amount : PageAllocationSizeT) → (new_guard_alloc : m.PageAllocation)
      → (extra_main_alloc : Option m.PageAllocation) → Outcome (m.World × AllocatedStack m)
  unfolding slot_at push_guards push_extra set_slot unified_expand_downwards contains map_vmem
      clear_virt_mapping Offset.new
  grow_stack world self amount new_guard_alloc extra_main_alloc = do
    let main = self.stack_main
    let guard = self.guard_page
    guard_slot ← slot_at m guard.inner.virt_slots guard.slot_index
    let guard_inner = record guard.inner {
      virt_slots =
          set_slot m guard.inner.virt_slots guard.slot_index
            (record guard_slot { allocations = [] });
    }
    main_slot ← slot_at m main.inner.virt_slots main.slot_index
    (world, main_slot) ← push_guards world main.arc main.slot_index main_slot guard_slot.allocations
    (world, main_slot) ← push_extra world main.arc main.slot_index main_slot extra_main_alloc
    let main_inner = record main.inner {
      virt_slots = set_slot m main.inner.virt_slots main.slot_index main_slot;
    }
    (world, main_inner, expansion_results) ←
        unified_expand_downwards m world main_inner main.arc amount
    assert (contains m expansion_results main.slot_index)
    zero_offset ← Offset.new (pos 0)
    (world, new_guard) ←
        map_vmem m world guard_inner guard.arc new_guard_alloc self.page_flags zero_offset
    (world, guard_inner) ← clear_virt_mapping m world new_guard.inner guard.slot_index
    ok (
      world,
      record self {
        stack_main = record main { inner = main_inner };
        guard_page = record new_guard { inner = guard_inner };
      },
    )

  unfoldable pub expand :
      m.World
      → AllocatedStack m
      → (amount : PageAllocationSizeT) → Outcome (m.World × AllocatedStack m × Bool)
  unfolding expand_amounts slot_at split_new grow_stack
  expand world self amount = do
    (extra_amount, total_to_allocate) ← expand_amounts amount self.guard_size
    guard_slot ← slot_at m self.guard_page.inner.virt_slots self.guard_page.slot_index
    first ← front m guard_slot.allocations
    (world, allocated) ← m.alloc_downwards_dyn world first.allocation total_to_allocate
    elim allocated [
      | none ↦ ok (world, self, false)
      | some new_alloc ↦ do
        (world, new_guard_alloc, extra_main_alloc) ←
            split_new world new_alloc self.guard_size extra_amount
        (world, self) ← grow_stack world self amount new_guard_alloc extra_main_alloc
        ok (world, self, true)
    ]

  -- The sizes at the start of an expansion are never found: the default size 0 panics.
  expand_amounts_panics :
      (amount guard_size : PageAllocationSizeT) → expand_amounts amount guard_size ≡ panic
  unfolding expand_amounts Size.get Size.new Size.new_checked
  expand_amounts_panics amount guard_size = ground arith

  -- An expansion of a stack panics, for every stack, every amount and every state of the memory.
  pub expand_panics :
      (world : m.World) (self : AllocatedStack m) (amount : PageAllocationSizeT)
      → expand world self amount ≡ panic
  unfolding expand
  expand_panics world self amount = rw (expand_amounts_panics amount self.guard_size) refl
