-- ===== src/Unified/Remap/Whole.antt =====
-- kernel/rust/src/memory/unified.rs: what `_remap_pages` does to an allocation that is mapped in one place.
use cookie_os.Base.{
  ℕ, suc, ◌+◌, ◌%◌, ◌≤◌, ◌≡◌, refl, Bool, true, false, none, some, List, [], ◌∷◌, ◌++◌, length,
  length-append, >>=_assoc, >>=_ok, >>=-congr, sum_by, All, ok, ◌>>=◌, arith,
}
use cookie_os.Base.Int.{ℤ}
use cookie_os.Paging.{page_align}
use cookie_os.Paging.AllocationSize.{IsPageSize}
use cookie_os.Paging.AlignedOffset.{PageAlignedOffsetT}
use cookie_os.Unified.{
  Memory, VirtualAllocation, VirtualSlot, UnifiedAllocationInner, AllocationBacking, BackingSection,
  get_size,
}
use cookie_os.Unified.Offsets.{above, above_zero, IsWindow, add_above}
use cookie_os.Unified.Remap.{processing, remap_states, remap_loop}
use cookie_os.Unified.Remap.Pages.{
  remap_sections, remap_pages, drop_states, drop_all, put_back, set_slot, states_from,
}
use cookie_os.Unified.Remap.Within.{
  map_each, map_each-same, sizes, HavePageSizes, state_at, remap_turn-after, remap_loop-map_each,
  remap_loop-stops,
}

module _ (m : Memory) where
  abbrev pub section_size : BackingSection → ℕ
  section_size section = (get_size section).value

  -- An allocation of one slot with these allocations, and these sections.
  abbrev pub mapped_once :
      PageAlignedOffsetT
      → AllocationBacking
      → List BackingSection
      → VirtualSlot m
      → List (VirtualAllocation m)
      → UnifiedAllocationInner m
  mapped_once offset backing sections slot allocations = record {
    virt_slots = some (record slot { allocations = allocations; offset = offset }) ∷ [];
    backing = record backing { sections = sections; offset = offset };
  }

  module _ (self_arc : ℕ) (force_readonly : Bool) (x : ℤ) (top : ℕ) (window : IsWindow x top) where
    map_one_section :
        (world : m.World) (backing : AllocationBacking) (section : BackingSection)
        (slot : VirtualSlot m) (queue : List (VirtualAllocation m))
        → IsPageSize (section_size section)
        → section_size section ≤ top
        → HavePageSizes m queue
        → sizes m queue ≤ section_size section
        → remap_pages m world
            (mapped_once (above x 0) backing (section ∷ []) slot queue)
            self_arc
            none
            force_readonly
          ≡ (map_each m section slot force_readonly world 0 queue >>= λ world.
              ok (world, mapped_once (above x 0) backing (section ∷ []) slot queue))
    unfolding remap_pages remap_sections remap_states drop_states put_back set_slot states_from
    map_one_section world backing section slot queue section_ok room page_sizes inside =
        rw
          (
            add_above x 0 top (get_size section) window refl section_ok (omega arith),
            remap_loop-map_each m self_arc force_readonly x 0 (section_size section) top section
                true window refl section_ok.1 (omega arith) world 0 queue
                (record slot { allocations = []; offset = above x 0 }) 0 (suc (suc (length queue)))
                (omega arith) refl page_sizes (omega arith) (omega arith),
            map_each-same,
            >>=_assoc,
            >>=_assoc,
            >>=_assoc,
          )
          (>>=-congr (map_each m section slot force_readonly world 0 queue) _ _ (λ world. refl))

    -- A state that stands past all sections: no section is given to it.
    remap_sections-stay :
        (world : m.World) (is_first : Bool) (late : VirtualAllocation m)
        (rest : List (VirtualAllocation m)) (slot : VirtualSlot m) (slot_idx : ℕ) (k at : ℕ)
        (sections : List BackingSection)
        → k % page_align ≡ 0
        → at % page_align ≡ 0
        → IsPageSize late.size.value
        → All
            (λ section.
              IsPageSize (section_size section) × (section_size section ≤ late.size.value))
            sections
        → k + late.size.value ≤ at
        → at + sum_by (λ section. late.size.value) sections ≤ top
        → remap_sections m self_arc force_readonly world is_first
            (above x k)
            sections
            (processing (state_at m x at (late ∷ rest) slot slot_idx) ∷ [])
          ≡ ok (
            world,
            processing (
                  state_at m x
                    (at + sum_by (λ section. late.size.value) sections)
                    (late ∷ rest)
                    slot
                    slot_idx)
                ∷ [],
          )
    unfolding remap_sections remap_states remap_loop
    remap_sections-stay world is_first late rest slot slot_idx k at [] kl al late_ok small past
          room =
        let e : at + 0 ≡ at = omega arith in rw e refl
    remap_sections-stay world is_first late rest slot slot_idx k at (section ∷ sections) kl al
          late_ok small past room =
        rw
          (
            add_above x k top (get_size section) window kl (small.0.0) (omega arith),
            remap_turn-after m self_arc force_readonly x k (section_size section) top section
                is_first window kl (omega arith) (omega arith) world at rest slot slot_idx late
                (omega arith) al late_ok (omega arith),
          )
          (let e : at + late.size.value + sum_by (λ section. late.size.value) sections
                ≡ at + (late.size.value + sum_by (λ section. late.size.value) sections) =
              omega arith in
            rw e at (
              remap_sections-stay world false late rest slot slot_idx (k + section_size section)
                (at + late.size.value) sections (omega arith) (omega arith) late_ok small.1
                (omega arith) (omega arith)))

    stop_at_late :
        (world : m.World) (backing : AllocationBacking) (section : BackingSection)
        (sections : List BackingSection) (slot : VirtualSlot m) (queue : List (VirtualAllocation m))
        (late : VirtualAllocation m) (rest : List (VirtualAllocation m))
        → IsPageSize (section_size section)
        → HavePageSizes m queue
        → sizes m queue ≡ section_size section
        → IsPageSize late.size.value
        → All
            (λ section.
              IsPageSize (section_size section) × (section_size section ≤ late.size.value))
            sections
        → section_size section + late.size.value + sum_by (λ section. late.size.value) sections
          ≤ top
        → remap_pages m world
            (mapped_once (above x 0) backing (section ∷ sections) slot (queue ++ late ∷ rest))
            self_arc
            none
            force_readonly
          ≡ (map_each m section slot force_readonly world 0 queue >>= λ world.
              drop_all m world (late ∷ rest) >>= λ world.
              ok (world, mapped_once (above x 0) backing (section ∷ sections) slot queue))
    unfolding remap_pages remap_sections remap_states drop_states put_back set_slot states_from
    stop_at_late world backing section sections slot queue late rest section_ok page_sizes full
          late_ok small room =
        rw
          (
            add_above x 0 top (get_size section) window refl section_ok (omega arith),
            remap_loop-stops m self_arc force_readonly x 0 (section_size section) top section true
                window refl section_ok.1 (omega arith) world 0 queue late rest
                (record slot { allocations = []; offset = above x 0 }) 0
                (suc (suc (length (queue ++ late ∷ rest)))) (omega arith) refl page_sizes
                (omega arith) late_ok (omega arith)
                (omega (arith, length-append queue (late ∷ rest))),
            map_each-same,
            >>=_assoc,
            >>=_assoc,
            >>=_assoc,
          )
          (>>=-congr (map_each m section slot force_readonly world 0 queue) _ _ (λ world.
            rw
              (
                remap_sections-stay world false late rest
                    (record slot { allocations = queue; offset = above x 0 }) 0
                    (0 + section_size section) (0 + section_size section + late.size.value) sections
                    (omega arith) (omega arith) late_ok small (omega arith) (omega arith),
                >>=_ok (drop_all m world (late ∷ rest)),
              )
              refl))

    -- An allocation with one section, and one place that begins at the same offset as the section and is
    -- of at most its size: every part of the place is mapped to the bytes of the section at its own
    -- offset, in order, and the place keeps all parts.
    pub remap_pages-map_each :
        (world : m.World) (backing : AllocationBacking) (section : BackingSection)
        (slot : VirtualSlot m) (queue : List (VirtualAllocation m))
        → IsPageSize (section_size section)
        → section_size section ≤ top
        → HavePageSizes m queue
        → sizes m queue ≤ section_size section
        → remap_pages m world
            (mapped_once (record { value = x }) backing (section ∷ []) slot queue)
            self_arc
            none
            force_readonly
          ≡ (map_each m section slot force_readonly world 0 queue >>= λ world.
              ok (world, mapped_once (record { value = x }) backing (section ∷ []) slot queue))
    remap_pages-map_each world backing section slot queue section_ok room page_sizes inside =
        rw (above_zero x) at
          (map_one_section world backing section slot queue section_ok room page_sizes inside)

    -- With more sections, an allocation of the place that begins where the first section ends, and is at
    -- least as large as each other section, is never mapped: it is dropped, with all that stands behind
    -- it, and the place keeps only what lies in the first section.
    pub remap_pages_drops :
        (world : m.World) (backing : AllocationBacking) (section : BackingSection)
        (sections : List BackingSection) (slot : VirtualSlot m) (queue : List (VirtualAllocation m))
        (late : VirtualAllocation m) (rest : List (VirtualAllocation m))
        → IsPageSize (section_size section)
        → HavePageSizes m queue
        → sizes m queue ≡ section_size section
        → IsPageSize late.size.value
        → All
            (λ section.
              IsPageSize (section_size section) × (section_size section ≤ late.size.value))
            sections
        → section_size section + late.size.value + sum_by (λ section. late.size.value) sections
          ≤ top
        → remap_pages m world
            (mapped_once
              (record { value = x })
              backing
              (section ∷ sections)
              slot
              (queue ++ late ∷ rest))
            self_arc
            none
            force_readonly
          ≡ (map_each m section slot force_readonly world 0 queue >>= λ world.
              drop_all m world (late ∷ rest) >>= λ world.
              ok
                (world, mapped_once (record { value = x }) backing (section ∷ sections) slot queue))
    remap_pages_drops world backing section sections slot queue late rest section_ok page_sizes full
          late_ok small room =
        rw (above_zero x) at (
          stop_at_late world backing section sections slot queue late rest section_ok page_sizes
            full late_ok small room)
