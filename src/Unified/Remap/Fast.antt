-- ===== src/Unified/Remap/Fast.antt =====
-- kernel/rust/src/memory/unified.rs: `_remap_pages_fast`, for sections that begin and end where the
-- allocations do. It only reads the allocations.
use cookie_os.Base.{
  ℕ, Bool, false, if◌then◌else◌, Option, List, [], ◌∷◌, Outcome, ok, ◌>>=◌, ◌>>◌, assert,
}
use cookie_os.Paging.AlignedOffset.{PageAlignedOffsetT}
use cookie_os.Unified.{
  Memory, VirtualAllocation, UnifiedAllocationInner, BackingSection, get_size, add_offset_and_size,
  leb_offset,
}
use cookie_os.Unified.Remap.{
  Place, VirtRemapState, VirtState, processing, finished, remap_page, distance,
}
use cookie_os.Unified.Remap.Pages.{states_from}

module _ (m : Memory) (force_readonly : Bool) where
  -- The loop over the allocations of one slot. `to_process` is what the iterator has left.
  unfoldable pub fast_loop :
      Place m
      → (virt : VirtRemapState m) → m.World
      → (prev_alloc_end : PageAlignedOffsetT) → (to_process : List (VirtualAllocation m))
      → Outcome (m.World × VirtState m)
  unfolding add_offset_and_size distance remap_page
  fast_loop p virt world prev_alloc_end [] =
      ok (world, finished (record virt { prev_alloc_end = prev_alloc_end; to_process = [] }))
  fast_loop p virt world prev_alloc_end (virt_alloc ∷ rest) = do
    virt_end_offset ← add_offset_and_size prev_alloc_end virt_alloc.size
    if leb_offset p.backing_end_offset prev_alloc_end
        then ok (
          world,
          processing (record virt { prev_alloc_end = virt_end_offset; to_process = rest }),
        )
        else (do
          assert (leb_offset p.backing_start_offset prev_alloc_end)
          assert (leb_offset virt_end_offset p.backing_end_offset)
          addr_offset ← distance prev_alloc_end p.backing_start_offset
          world ← remap_page m world p.section virt.slot virt_alloc addr_offset force_readonly
          fast_loop p virt world virt_end_offset rest)

  unfoldable pub fast_states :
      Place m → m.World → List (VirtState m) → Outcome (m.World × List (VirtState m))
  unfolding fast_loop
  fast_states p world [] = ok (world, [])
  fast_states p world (finished virt ∷ states) = do
    (world, states) ← fast_states p world states
    ok (world, finished virt ∷ states)
  fast_states p world (processing virt ∷ states) = do
    (world, state) ← fast_loop p virt world virt.prev_alloc_end virt.to_process
    (world, states) ← fast_states p world states
    ok (world, state ∷ states)

  unfoldable pub fast_sections :
      m.World
      → (backing_end_offset : PageAlignedOffsetT) → List BackingSection
      → List (VirtState m)
      → Outcome m.World
  unfolding add_offset_and_size fast_states
  fast_sections world backing_end_offset [] states = ok world
  fast_sections world backing_end_offset (section ∷ sections) states = do
    let backing_start_offset = backing_end_offset
    backing_end_offset ← add_offset_and_size backing_start_offset (get_size section)
    let place : Place m = record {
      section = section;
      backing_start_offset = backing_start_offset;
      backing_end_offset = backing_end_offset;
      is_first_section = false;
    }
    (world, states) ← fast_states place world states
    fast_sections world backing_end_offset sections states

  unfoldable pub remap_pages_fast :
      m.World → UnifiedAllocationInner m → (virt_slot : Option ℕ) → Outcome m.World
  unfolding states_from fast_sections
  remap_pages_fast world self virt_slot =
      fast_sections world self.backing.offset self.backing.sections
        (states_from m virt_slot 0 self.virt_slots)
