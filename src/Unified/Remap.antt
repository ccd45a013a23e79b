-- ===== src/Unified/Remap.antt =====
-- kernel/rust/src/memory/unified.rs: `_remap_page`, `_remap_pages` and `_remap_pages_fast`, which map
-- the places in virtual memory to the sections of the backing.
pub mod Pages
pub mod Fast
pub mod Within
pub mod Whole
pub mod Ends
pub mod Turns
use cookie_os.Base.{
  ℕ, zero, suc, ◌+◌, Bool, true, false, ◌==◌, ◌&&◌, ◌||◌, if◌then◌else◌, Option, none, some, List,
  [], ◌∷◌, ◌++◌, length, Outcome, ok, panic, out_of_fuel, ◌>>=◌, ◌>>◌, assert, expect,
}
use cookie_os.Paging.{is_usize}
use cookie_os.Paging.AllocationSize as Size
use cookie_os.Paging.AllocationSize.{PageAllocationSizeT}
use cookie_os.Paging.AlignedOffset as Offset
use cookie_os.Paging.AlignedOffset.{PageAlignedOffsetT}
use cookie_os.Paging.Flags as Flags
use cookie_os.Paging.Flags.{PageFlags, no_tflags, no_mflags}
use cookie_os.Unified.{
  Memory, VirtualAllocation, VirtualSlot, UnifiedAllocationInner, BackingSection, get_size,
  get_phys_addr, is_read_only, normal_allocation, add_offset_and_size, leb_offset, ltb_offset,
  to_usize, new_virtual, drop_virtual,
}

-- `pageFlags!(t:WRITEABLE)`
abbrev pub writeable_flag : PageFlags
writeable_flag = record { tflags = record no_tflags { writeable = true }; mflags = no_mflags }

-- The offset of one place above another, as an address: `(o - p).into()` as an `isize`, then a `usize`.
unfoldable pub distance : PageAlignedOffsetT → PageAlignedOffsetT → Outcome ℕ
unfolding Offset.sub Offset.new Offset.get
distance o p = do d ← Offset.sub o p; z ← Offset.get d; to_usize z

-- The same as a size; `try_into` panics at 0.
unfoldable pub distance_size : PageAlignedOffsetT → PageAlignedOffsetT → Outcome PageAllocationSizeT
unfolding distance Size.new_checked Size.new
distance_size o p = do n ← distance o p; s ← Size.new_checked n; expect s

module _ (m : Memory) where
  abbrev pub remap_flags : PageFlags → Bool → PageFlags
  remap_flags flags read_only = if read_only then Flags.sub flags writeable_flag else flags

  unfoldable pub remap_page :
      m.World
      → BackingSection
      → VirtualSlot m
      → VirtualAllocation m
      → (mapping_addr_offset : ℕ) → (force_readonly : Bool) → Outcome m.World
  unfolding is_read_only get_phys_addr
  remap_page world section slot virt mapping_addr_offset force_readonly =
      elim (get_phys_addr section) [
        | some addr ↦ do
          assert (is_usize (addr + mapping_addr_offset))
          let flags = remap_flags slot.default_flags (force_readonly || is_read_only section)
          m.set_base_addr world virt.allocation (addr + mapping_addr_offset) flags
        | none ↦ m.set_absent world virt.allocation virt.absent_pages_table_handle
      ]

  pub record VirtRemapState : Type 0 where
    pub prev_alloc_end : PageAlignedOffsetT
    pub to_process : List (VirtualAllocation m)
    pub slot : VirtualSlot m
    pub slot_idx : ℕ

  -- An element of `virt_states`; what is set to `None` leaves its slot behind.
  pub data VirtState : Type 0 where
    processing : VirtRemapState → VirtState
    finished : VirtRemapState → VirtState

  -- How a turn of the inner loop ends.
  pub data Turn : Type 0 where
    again break_with : VirtRemapState → Turn

  -- A section of the backing, with what the loop over the sections knows about it.
  pub record Place : Type 0 where
    pub section : BackingSection
    pub backing_start_offset : PageAlignedOffsetT
    pub backing_end_offset : PageAlignedOffsetT
    pub is_first_section : Bool

  module _ (self_arc : ℕ) (force_readonly : Bool) (p : Place) where
    -- The place ends at or before the section.
    unfoldable pub drop_before :
        m.World → VirtRemapState → VirtualAllocation m → Outcome (m.World × Turn)
    unfolding drop_virtual
    drop_before world virt virt_alloc =
        if p.is_first_section
        then (do world ← drop_virtual m world virt_alloc; ok (world, again virt))
        else panic

    -- It lies inside the section.
    unfoldable pub map_inside :
        m.World
        → VirtRemapState
        → VirtualAllocation m
        → (virt_start_offset : PageAlignedOffsetT) → Outcome (m.World × Turn)
    unfolding distance remap_page
    map_inside world virt virt_alloc virt_start_offset = do
      addr_offset ← distance virt_start_offset p.backing_start_offset
      world ← remap_page world p.section virt.slot virt_alloc addr_offset force_readonly
      ok (
        world,
        again (record virt {
          slot = record virt.slot { allocations = virt.slot.allocations ++ virt_alloc ∷ [] };
        }),
      )

    -- It goes beyond the end of the section. What is left of the old allocation, its handle, is dropped last.
    unfoldable pub split_at_end :
        m.World
        → VirtRemapState
        → VirtualAllocation m
        → (virt_start_offset : PageAlignedOffsetT) → Outcome (m.World × Turn)
    unfolding distance_size new_virtual
    split_at_end world virt virt_alloc virt_start_offset = do
      part_of_us_size ← distance_size p.backing_end_offset virt_start_offset
      (world, lhs, rhs) ← m.split_dyn world virt_alloc.allocation part_of_us_size
      (world, rhs) ←
          new_virtual m world rhs (normal_allocation self_arc virt.slot_idx p.backing_end_offset)
      (world, lhs) ←
          new_virtual m world lhs (normal_allocation self_arc virt.slot_idx virt_start_offset)
      world ← m.drop_descriptor world virt_alloc.absent_pages_table_handle
      ok (world, again (record virt { to_process = lhs ∷ rhs ∷ virt.to_process }))

    -- It begins before the section.
    unfoldable pub split_at_start :
        m.World
        → VirtRemapState
        → VirtualAllocation m
        → (virt_start_offset : PageAlignedOffsetT) → Outcome (m.World × Turn)
    unfolding distance_size new_virtual
    split_at_start world virt virt_alloc virt_start_offset = do
      start_overran_by ← distance_size virt_start_offset p.backing_start_offset
      (world, lhs, rhs) ← m.split_dyn world virt_alloc.allocation start_overran_by
      (world, rhs) ←
          new_virtual m world rhs (normal_allocation self_arc virt.slot_idx p.backing_start_offset)
      assert p.is_first_section
      world ← m.drop_page_allocation world lhs
      world ← m.drop_descriptor world virt_alloc.absent_pages_table_handle
      ok (world, again (record virt { to_process = rhs ∷ virt.to_process }))

    -- A turn on the allocation that was popped; `virt.to_process` is what stands behind it.
    unfoldable pub remap_turn :
        m.World → VirtRemapState → VirtualAllocation m → Outcome (m.World × Turn)
    unfolding drop_before map_inside split_at_end split_at_start add_offset_and_size
    remap_turn world virt virt_alloc = do
      let virt_start_offset = virt.prev_alloc_end
      virt_end_offset ← add_offset_and_size virt_start_offset virt_alloc.size
      let virt = record virt { prev_alloc_end = virt_end_offset }
      if leb_offset virt_end_offset p.backing_start_offset
          then drop_before world virt virt_alloc
          else if leb_offset p.backing_end_offset virt_start_offset
          then ok (world, break_with (record virt { to_process = virt_alloc ∷ virt.to_process }))
          else if leb_offset p.backing_start_offset virt_start_offset
              && leb_offset virt_end_offset p.backing_end_offset
          then map_inside world virt virt_alloc virt_start_offset
          else if ltb_offset p.backing_end_offset virt_end_offset
          then split_at_end world virt virt_alloc virt_start_offset
          else if ltb_offset virt_start_offset p.backing_start_offset
          then split_at_start world virt virt_alloc virt_start_offset
          else panic

    -- The loop over the allocations of one slot.
    unfoldable pub remap_loop :
        (fuel : ℕ) → m.World → VirtRemapState → Outcome (m.World × VirtState)
    remap_loop zero world virt = out_of_fuel
    remap_loop (suc fuel) world virt = elim virt.to_process [
      | [] ↦ ok (world, finished virt)
      | virt_alloc ∷ rest ↦ do
        (world, turn) ← remap_turn world (record virt { to_process = rest }) virt_alloc
        elim turn [
          | again virt ↦ remap_loop fuel world virt
          | break_with virt ↦ ok (world, processing virt)
        ]
    ]

    -- Each slot is met once for a section.
    unfoldable pub remap_states : m.World → List VirtState → Outcome (m.World × List VirtState)
    unfolding remap_loop
    remap_states world [] = ok (world, [])
    remap_states world (finished virt ∷ states) = do
      (world, states) ← remap_states world states
      ok (world, finished virt ∷ states)
    remap_states world (processing virt ∷ states) = do
      (world, state) ← remap_loop (suc (suc (length virt.to_process))) world virt
      (world, states) ← remap_states world states
      ok (world, state ∷ states)
