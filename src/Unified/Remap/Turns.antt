-- ===== src/Unified/Remap/Turns.antt =====
-- kernel/rust/src/memory/unified.rs: the loops of `_remap_pages` come to an end.
use mathlib.Core.Path.{subst}
use cookie_os.Base.{
  ℕ, zero, suc, ◌≤◌, ◌<◌, ◌≢◌, Bool, true, false, Option, List, [], ◌∷◌, length, ok, out_of_fuel,
  if◌then◌else◌, Ends, Ends->>=, Ends-if, Ends-in_fuel, Ends-assert, List-cases, Done, Done->>=,
  inl, inr, ◌&&◌, arith,
}
use cookie_os.Paging.AlignedOffset.{PageAlignedOffsetT}
use cookie_os.Unified.{
  Memory, VirtualAllocation, UnifiedAllocationInner, BackingSection, get_size, add_offset_and_size,
  leb_offset, ltb_offset, new_virtual, drop_virtual,
}
use cookie_os.Unified.Remap.{
  Place, VirtRemapState, VirtState, processing, finished, Turn, again, break_with, distance,
  distance_size, remap_page, drop_before, map_inside, split_at_end, split_at_start, remap_turn,
  remap_loop, remap_states,
}
use cookie_os.Unified.Remap.Pages.{remap_sections, remap_pages, drop_states, drop_all, states_from}
use cookie_os.Unified.Remap.Ends.{
  After, add-After, AlwaysEnds, new_virtual-Done, drop_virtual-Done, distance-Done,
  distance_size-Done, remap_page-Done,
}

module _ (m : Memory) (ends : AlwaysEnds m) where
  -- How many turns the loop takes at most: one past the end of the section, which ends it; inside, one
  -- for each allocation and a last one; and before its start one more, that splits an allocation.
  module _ (p : Place m) where
    turns : VirtRemapState m → ℕ
    turns virt =
        if leb_offset p.backing_end_offset virt.prev_alloc_end
        then 1
        else if ltb_offset p.backing_start_offset virt.prev_alloc_end
        then suc (length virt.to_process)
        else suc (suc (length virt.to_process))

    Within : ℕ → Turn m → Type 0
    Within n (again virt) = turns virt < n
    Within n (break_with virt) = Unit

    module _ (self_arc : ℕ) (force_readonly : Bool) where
      drop_before-Within :
          (n : ℕ) (w : m.World) (virt : VirtRemapState m) (v : VirtualAllocation m)
          → turns virt < n
          → Ends (λ t. Within n (t.1)) (drop_before m self_arc force_readonly p w virt v)
      unfolding drop_before Within
      drop_before-Within n w virt v h =
          Ends-if _ p.is_first_section _ _
            (λ _. Ends->>= _ _ (drop_virtual m w v) _ (drop_virtual-Done m ends w v) (λ w1 _. h))
            (λ _. tt)

      map_inside-Within :
          (n : ℕ) (w : m.World) (virt : VirtRemapState m) (v : VirtualAllocation m)
          (start : PageAlignedOffsetT)
          → turns virt < n
          → Ends (λ t. Within n (t.1)) (map_inside m self_arc force_readonly p w virt v start)
      unfolding map_inside Within turns
      map_inside-Within n w virt v start h =
          Ends->>= _ _ (distance start p.backing_start_offset) _
            (distance-Done start p.backing_start_offset)
            (λ k _.
              Ends->>= _ _ (remap_page m w p.section virt.slot v k force_readonly) _
                (remap_page-Done m ends w p.section virt.slot v k force_readonly) (λ w1 _. h))

      split_at_end-Within :
          (n : ℕ) (w : m.World) (virt : VirtRemapState m) (v : VirtualAllocation m)
          (start : PageAlignedOffsetT)
          → ((l r : VirtualAllocation m)
              → turns (record virt { to_process = l ∷ r ∷ virt.to_process }) < n)
          → Ends (λ t. Within n (t.1)) (split_at_end m self_arc force_readonly p w virt v start)
      unfolding split_at_end Within
      split_at_end-Within n w virt v start h =
          Ends->>= _ _ (distance_size p.backing_end_offset start) _
            (distance_size-Done p.backing_end_offset start)
            (λ s _.
              Ends->>= _ _ (m.split_dyn w v.allocation s) _ (ends.split_dyn w v.allocation s)
                (λ (w1, l, r) _.
                  Ends->>= _ _ (new_virtual m w1 r _) _ (new_virtual-Done m ends w1 r _)
                    (λ (w2, r1) _.
                      Ends->>= _ _ (new_virtual m w2 l _) _ (new_virtual-Done m ends w2 l _)
                        (λ (w3, l1) _.
                          Ends->>= _ _ (m.drop_descriptor w3 v.absent_pages_table_handle) _
                            (ends.drop_descriptor w3 v.absent_pages_table_handle)
                            (λ w4 _. h l1 r1)))))

      split_at_start-Within :
          (n : ℕ) (w : m.World) (virt : VirtRemapState m) (v : VirtualAllocation m)
          (start : PageAlignedOffsetT)
          → ((r : VirtualAllocation m)
              → turns (record virt { to_process = r ∷ virt.to_process }) < n)
          → Ends (λ t. Within n (t.1)) (split_at_start m self_arc force_readonly p w virt v start)
      unfolding split_at_start Within
      split_at_start-Within n w virt v start h =
          Ends->>= _ _ (distance_size start p.backing_start_offset) _
            (distance_size-Done start p.backing_start_offset)
            (λ s _.
              Ends->>= _ _ (m.split_dyn w v.allocation s) _ (ends.split_dyn w v.allocation s)
                (λ (w1, l, r) _.
                  Ends->>= _ _ (new_virtual m w1 r _) _ (new_virtual-Done m ends w1 r _)
                    (λ (w2, r1) _. Ends-assert _ p.is_first_section _ (λ _.
                      Ends->>= _ _ (m.drop_page_allocation w2 l) _ (ends.drop_page_allocation w2 l)
                        (λ w3 _.
                          Ends->>= _ _ (m.drop_descriptor w3 v.absent_pages_table_handle) _
                            (ends.drop_descriptor w3 v.absent_pages_table_handle)
                            (λ w4 _. h r1))))))

      turn-Within :
          (w : m.World) (virt : VirtRemapState m) (v : VirtualAllocation m)
          → After p.backing_start_offset p.backing_end_offset
          → Ends
              (λ t. Within (turns (record virt { to_process = v ∷ virt.to_process })) (t.1))
              (remap_turn m self_arc force_readonly p w virt v)
      unfolding remap_turn After Within turns
      turn-Within w virt v filled =
          Ends->>= _ _ (add_offset_and_size virt.prev_alloc_end v.size) _
            (add-After virt.prev_alloc_end v.size)
            (λ end after.
              let moved : VirtRemapState m = record virt { prev_alloc_end = end } in
              let start = virt.prev_alloc_end in
              Ends-if _ (leb_offset end p.backing_start_offset) _ _
                (λ e. drop_before-Within _ w moved v (ground arith))
                (λ e.
                  Ends-if _ (leb_offset p.backing_end_offset start) _ _ (λ f. tt)
                    (λ f.
                      Ends-if _
                        (leb_offset p.backing_start_offset start
                          && leb_offset end p.backing_end_offset)
                        _ _ (λ _. map_inside-Within _ w moved v start (ground arith))
                        (λ _.
                          Ends-if _ (ltb_offset p.backing_end_offset end) _ _
                            (λ g. split_at_end-Within _ w moved v start (λ l r. ground arith))
                            (λ g.
                              Ends-if _ (ltb_offset start p.backing_start_offset) _ _
                                (λ h. split_at_start-Within _ w moved v start (λ r. ground arith))
                                (λ h. tt))))))

      after_turn-Done :
          (fuel n : ℕ) (w : m.World) (turn : Turn m)
          → n ≤ suc fuel
          → Within n turn
          → ((virt : VirtRemapState m)
              → turns virt ≤ fuel
              → Done (remap_loop m self_arc force_readonly p fuel w virt))
          → Done (elim turn [
            | again virt ↦ remap_loop m self_arc force_readonly p fuel w virt
            | break_with virt ↦ ok (w, processing virt)
          ])
      unfolding Within
      after_turn-Done fuel n w (again virt) h k loop = loop virt (omega (arith, h, k))
      after_turn-Done fuel n w (break_with virt) h k loop = tt

      remap_loop-Done :
          (fuel : ℕ) (w : m.World) (virt : VirtRemapState m)
          → After p.backing_start_offset p.backing_end_offset
          → turns virt ≤ fuel
          → Done (remap_loop m self_arc force_readonly p fuel w virt)
      unfolding remap_loop turns
      remap_loop-Done zero w virt filled h = absurd (ground arith)
      remap_loop-Done (suc fuel) w virt filled h = elim (List-cases virt.to_process) [
        | inl e ↦ rw (remap_loop, e) tt
        | inr (v, rest, e) ↦
            rw (remap_loop, e)
              (Ends->>= _ _
                (remap_turn m self_arc force_readonly p w (record virt { to_process = rest }) v) _
                (turn-Within w (record virt { to_process = rest }) v filled)
                (λ t k.
                  after_turn-Done fuel (turns (record virt { to_process = v ∷ rest })) (t.0) (t.1)
                    (subst (λ q. turns (record virt { to_process = q }) ≤ suc fuel) e h) k
                    (λ virt1. remap_loop-Done fuel (t.0) virt1 filled)))
      ]

      remap_states-Done :
          (w : m.World) (states : List (VirtState m))
          → After p.backing_start_offset p.backing_end_offset
          → Done (remap_states m self_arc force_readonly p w states)
      unfolding remap_states turns
      remap_states-Done w [] filled = tt
      remap_states-Done w (finished virt ∷ states) filled =
          Done->>= (remap_states m self_arc force_readonly p w states) _
            (remap_states-Done w states filled) (λ t. tt)
      remap_states-Done w (processing virt ∷ states) filled =
          Done->>=
            (remap_loop m self_arc force_readonly p (suc (suc (length virt.to_process))) w virt) _
            (remap_loop-Done (suc (suc (length virt.to_process))) w virt filled (ground arith))
            (λ t.
              Done->>= (remap_states m self_arc force_readonly p (t.0) states) _
                (remap_states-Done (t.0) states filled) (λ t. tt))

  remap_sections-Done :
      (self_arc : ℕ) (force_readonly : Bool) (w : m.World) (is_first : Bool)
      (at : PageAlignedOffsetT) (sections : List BackingSection) (states : List (VirtState m))
      → Done (remap_sections m self_arc force_readonly w is_first at sections states)
  unfolding remap_sections
  remap_sections-Done self_arc force_readonly w is_first at [] states = tt
  remap_sections-Done self_arc force_readonly w is_first at (section ∷ sections) states =
      Ends->>= _ _ (add_offset_and_size at (get_size section)) _ (add-After at (get_size section))
        (λ end filled.
          let place : Place m = record {
            section = section;
            backing_start_offset = at;
            backing_end_offset = end;
            is_first_section = is_first;
          } in
          Done->>= (remap_states m self_arc force_readonly place w states) _
            (remap_states-Done place self_arc force_readonly w states filled)
            (λ t. remap_sections-Done self_arc force_readonly (t.0) false end sections (t.1)))

  drop_all-Done : (w : m.World) (queue : List (VirtualAllocation m)) → Done (drop_all m w queue)
  unfolding drop_all
  drop_all-Done w [] = tt
  drop_all-Done w (v ∷ rest) =
      Done->>= (drop_virtual m w v) _ (drop_virtual-Done m ends w v) (λ w. drop_all-Done w rest)

  drop_states-Done : (w : m.World) (states : List (VirtState m)) → Done (drop_states m w states)
  unfolding drop_states
  drop_states-Done w [] = tt
  drop_states-Done w (finished virt ∷ states) = drop_states-Done w states
  drop_states-Done w (processing virt ∷ states) =
      Done->>= (drop_all m w virt.to_process) _ (drop_all-Done w virt.to_process)
        (λ w. drop_states-Done w states)

  -- Where the calls of memory and descriptors come to an end, so does `_remap_pages`, for any
  -- sections, places and offsets: it returns or panics, and no loop takes more than two turns more
  -- than the slot has allocations.
  pub remap_pages_ends :
      (w : m.World) (self : UnifiedAllocationInner m) (self_arc : ℕ) (virt_slot : Option ℕ)
      (force_readonly : Bool)
      → remap_pages m w self self_arc virt_slot force_readonly ≢ out_of_fuel
  unfolding remap_pages
  remap_pages_ends w self self_arc virt_slot force_readonly = Ends-in_fuel _ _ (
      Done->>=
        (remap_sections m self_arc force_readonly w true self.backing.offset self.backing.sections
          (states_from m virt_slot 0 self.virt_slots))
        _
        (remap_sections-Done self_arc force_readonly w true self.backing.offset
          self.backing.sections (states_from m virt_slot 0 self.virt_slots))
        (λ t. Done->>= (drop_states m (t.0) (t.1)) _ (drop_states-Done (t.0) (t.1)) (λ w. tt)))
