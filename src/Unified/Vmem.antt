-- ===== src/Unified/Vmem.antt =====
-- kernel/rust/src/memory/unified.rs, `expand_vmem`: the places in virtual memory grow after the
-- allocation.
use cookie_os.Base.{
  ℕ, ◌+◌, Bool, true, false, leb, ◌==◌, ◌||◌, if◌then◌else◌, Option, none, some, List, [], ◌∷◌,
  Outcome, ok, panic, ◌>>=◌,
}
use cookie_os.Base.Int.{pos_part}
use cookie_os.Paging.AllocationSize as Size
use cookie_os.Paging.AllocationSize.{PageAllocationSizeT}
use cookie_os.Paging.AlignedOffset as Offset
use cookie_os.Paging.AlignedOffset.{PageAlignedOffsetT}
use cookie_os.Unified.{
  Memory, VirtualAllocation, VirtualSlot, UnifiedAllocationInner, normal_allocation,
  add_offset_and_size, new_virtual,
}
use cookie_os.Unified.Remap.Pages.{remap_pages}
use cookie_os.Unified.Expand.{top_of_sections}

module _ (m : Memory) where
  -- The fold over the allocations of a slot that gives their end.
  unfoldable pub end_of_allocations :
      PageAlignedOffsetT → List (VirtualAllocation m) → Outcome PageAlignedOffsetT
  unfolding add_offset_and_size
  end_of_allocations offset [] = ok offset
  end_of_allocations offset (alloc ∷ allocations) = do
    offset ← add_offset_and_size offset alloc.size
    end_of_allocations offset allocations

  -- `Some` of the amount that is missing between two offsets, if it is above zero.
  unfoldable pub amount_missing :
      (above below : PageAlignedOffsetT) → Outcome (Option PageAllocationSizeT)
  unfolding Offset.sub Offset.new Offset.get Size.new
  amount_missing above below = do
    difference ← Offset.sub above below
    missing ← Offset.get difference
    if leb (pos_part missing) 0
        then ok none
        else (do size ← Size.new (pos_part missing); ok (some size))

  -- A slot, in the first loop of `expand_vmem`: the slot, and if it is large enough below.
  unfoldable pub expand_slot_down :
      m.World
      → (self_arc virt_idx : ℕ) → (bottom_offset : PageAlignedOffsetT) → VirtualSlot m
      → List (VirtualAllocation m)
      → Outcome (m.World × VirtualSlot m × Bool)
  unfolding amount_missing new_virtual
  expand_slot_down world self_arc virt_idx bottom_offset virt_slot [] = panic
  expand_slot_down world self_arc virt_idx bottom_offset virt_slot (old ∷ rest) = do
    missing ← amount_missing virt_slot.offset bottom_offset
    elim missing [
      | none ↦ ok (world, virt_slot, true)
      | some amount ↦ do
        (world, allocated) ← m.alloc_downwards_dyn world old.allocation amount
        elim allocated [
          | none ↦ ok (world, virt_slot, false)
          | some new_allocation ↦ do
            (world, new_allocation) ←
                new_virtual m world new_allocation
                  (normal_allocation self_arc virt_idx bottom_offset)
            ok (world, record virt_slot { allocations = new_allocation ∷ old ∷ rest }, true)
        ]
    ]

  unfoldable pub expand_down :
      m.World
      → (self_arc virt_idx : ℕ) → (bottom_offset : PageAlignedOffsetT)
      → List (Option (VirtualSlot m))
      → Outcome (m.World × List (Option (VirtualSlot m)) × List ℕ)
  unfolding expand_slot_down
  expand_down world self_arc virt_idx bottom_offset [] = ok (world, [], [])
  expand_down world self_arc virt_idx bottom_offset (none ∷ slots) = do
    (world, slots, successful) ← expand_down world self_arc (virt_idx + 1) bottom_offset slots
    ok (world, none ∷ slots, successful)
  expand_down world self_arc virt_idx bottom_offset (some virt_slot ∷ slots) = do
    (world, virt_slot, done) ←
        expand_slot_down world self_arc virt_idx bottom_offset virt_slot virt_slot.allocations
    (world, slots, successful) ← expand_down world self_arc (virt_idx + 1) bottom_offset slots
    ok (world, some virt_slot ∷ slots, (if done then virt_idx ∷ successful else successful))

  -- The second loop never allocates: its allocation is `None`.
  unfoldable pub expand_slot_up :
      (top_offset : PageAlignedOffsetT) → VirtualSlot m → List (VirtualAllocation m) → Outcome Bool
  unfolding amount_missing end_of_allocations
  expand_slot_up top_offset virt_slot [] = panic
  expand_slot_up top_offset virt_slot (alloc ∷ rest) = do
    old_offset ← end_of_allocations virt_slot.offset (alloc ∷ rest)
    missing ← amount_missing top_offset old_offset
    elim missing [ none ↦ ok true | some amount ↦ ok false ]

  unfoldable pub expand_up :
      (virt_idx : ℕ)
      → (top_offset : PageAlignedOffsetT) → List (Option (VirtualSlot m))
      → Outcome (List ℕ)
  unfolding expand_slot_up
  expand_up virt_idx top_offset [] = ok []
  expand_up virt_idx top_offset (none ∷ slots) = expand_up (virt_idx + 1) top_offset slots
  expand_up virt_idx top_offset (some virt_slot ∷ slots) = do
    done ← expand_slot_up top_offset virt_slot virt_slot.allocations
    successful ← expand_up (virt_idx + 1) top_offset slots
    ok (if done then virt_idx ∷ successful else successful)

  -- `contains`, and `successful_down.retain`
  unfoldable pub contains : List ℕ → ℕ → Bool
  contains [] x = false
  contains (y ∷ ys) x = (y == x) || contains ys x

  unfoldable pub retain_contained : List ℕ → List ℕ → List ℕ
  unfolding contains
  retain_contained [] ys = []
  retain_contained (x ∷ xs) ys =
      let kept = retain_contained xs ys in if contains ys x then x ∷ kept else kept

  unfoldable pub expand_vmem :
      m.World
      → UnifiedAllocationInner m
      → (self_arc : ℕ) → Outcome (m.World × UnifiedAllocationInner m × List ℕ)
  unfolding top_of_sections expand_down expand_up remap_pages retain_contained
  expand_vmem world self self_arc = do
    top_offset ← top_of_sections m self.backing.offset self.backing.sections
    (world, slots, successful_down) ←
        expand_down world self_arc 0 self.backing.offset self.virt_slots
    successful_up ← expand_up 0 top_offset slots
    (world, self) ← remap_pages m world (record self { virt_slots = slots }) self_arc none false
    ok (world, self, retain_contained successful_down successful_up)
