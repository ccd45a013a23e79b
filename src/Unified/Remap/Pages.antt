-- ===== src/Unified/Remap/Pages.antt =====
-- kernel/rust/src/memory/unified.rs: `_remap_pages` as a whole, over all sections and slots.
use cookie_os.Base.{
  ℕ, zero, suc, ◌+◌, Bool, true, false, ◌==◌, if◌then◌else◌, Option, none, some, List, [], ◌∷◌,
  Outcome, ok, ◌>>=◌,
}
use cookie_os.Paging.AlignedOffset.{PageAlignedOffsetT}
use cookie_os.Unified.{
  Memory, VirtualAllocation, VirtualSlot, UnifiedAllocationInner, BackingSection, get_size,
  add_offset_and_size, drop_virtual,
}
use cookie_os.Unified.Remap.{Place, VirtRemapState, VirtState, processing, finished, remap_states}

-- The test of both `filter`s.
abbrev pub selected : Option ℕ → ℕ → Bool
selected none i = true
selected (some virt_slot) i = i == virt_slot

module _ (m : Memory) where
  -- What is taken from a slot; its allocations are drained.
  abbrev pub start_state : ℕ → VirtualSlot m → VirtRemapState m
  start_state i slot = record {
    prev_alloc_end = slot.offset;
    to_process = slot.allocations;
    slot = record slot { allocations = [] };
    slot_idx = i;
  }

  unfoldable pub states_from :
      Option ℕ → (i : ℕ) → List (Option (VirtualSlot m)) → List (VirtState m)
  states_from virt_slot i [] = []
  states_from virt_slot i (none ∷ slots) = states_from virt_slot (i + 1) slots
  states_from virt_slot i (some slot ∷ slots) =
      let states = states_from virt_slot (i + 1) slots in
      if selected virt_slot i then processing (start_state i slot) ∷ states else states

  abbrev pub state_of : VirtState m → VirtRemapState m
  state_of (processing virt) = virt
  state_of (finished virt) = virt

  -- `slots[i] = some slot`
  unfoldable pub set_slot :
      List (Option (VirtualSlot m)) → ℕ → VirtualSlot m → List (Option (VirtualSlot m))
  set_slot [] i slot = []
  set_slot (old ∷ slots) zero slot = some slot ∷ slots
  set_slot (old ∷ slots) (suc i) slot = old ∷ set_slot slots i slot

  unfoldable pub put_back :
      List (VirtState m) → List (Option (VirtualSlot m)) → List (Option (VirtualSlot m))
  unfolding set_slot
  put_back [] slots = slots
  put_back (state ∷ states) slots =
      put_back states (set_slot slots (state_of state).slot_idx (state_of state).slot)

  unfoldable pub drop_all : m.World → List (VirtualAllocation m) → Outcome m.World
  unfolding drop_virtual
  drop_all world [] = ok world
  drop_all world (virt ∷ rest) = do world ← drop_virtual m world virt; drop_all world rest

  -- The end of the function drops `virt_states`, with what is not processed.
  unfoldable pub drop_states : m.World → List (VirtState m) → Outcome m.World
  unfolding drop_all
  drop_states world [] = ok world
  drop_states world (finished virt ∷ states) = drop_states world states
  drop_states world (processing virt ∷ states) = do
    world ← drop_all world virt.to_process
    drop_states world states

  module _ (self_arc : ℕ) (force_readonly : Bool) where
    unfoldable pub remap_sections :
        m.World
        → (is_first_section : Bool) → (backing_end_offset : PageAlignedOffsetT)
        → List BackingSection
        → List (VirtState m)
        → Outcome (m.World × List (VirtState m))
    unfolding add_offset_and_size remap_states
    remap_sections world is_first_section backing_end_offset [] states = ok (world, states)
    remap_sections world is_first_section backing_end_offset (section ∷ sections) states = do
      let backing_start_offset = backing_end_offset
      backing_end_offset ← add_offset_and_size backing_start_offset (get_size section)
      let place : Place m = record {
        section = section;
        backing_start_offset = backing_start_offset;
        backing_end_offset = backing_end_offset;
        is_first_section = is_first_section;
      }
      (world, states) ← remap_states m self_arc force_readonly place world states
      remap_sections world false backing_end_offset sections states

  unfoldable pub remap_pages :
      m.World
      → UnifiedAllocationInner m
      → (self_arc : ℕ) → (virt_slot : Option ℕ) → (force_readonly : Bool)
      → Outcome (m.World × UnifiedAllocationInner m)
  unfolding states_from remap_sections drop_states put_back
  remap_pages world self self_arc virt_slot force_readonly = do
    (world, states) ←
        remap_sections self_arc force_readonly world true self.backing.offset self.backing.sections
          (states_from virt_slot 0 self.virt_slots)
    world ← drop_states world states
    ok (world, record self { virt_slots = put_back states self.virt_slots })
