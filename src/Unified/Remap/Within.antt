-- ===== src/Unified/Remap/Within.antt =====
-- kernel/rust/src/memory/unified.rs: what the loop of `_remap_pages` does with allocations that lie
-- inside one section.
use mathlib.Core.List.{append-nil, append_assoc}
use cookie_os.Base.{
  ℕ, zero, suc, ◌+◌, ◌-◌, ◌%◌, ◌≤◌, ◌<◌, ◌≡◌, refl, Bool, List, [], ◌∷◌, ◌++◌, length, >>=-congr,
  >>=_chains, sum_by, lt→not-leb, le→leb, All, Outcome, ok, ◌>>=◌, arith,
}
use cookie_os.Base.Int.{ℤ}
use cookie_os.Paging.{page_align}
use cookie_os.Paging.AllocationSize.{IsPageSize}
use cookie_os.Paging.AlignedOffset.{PageAlignedOffsetT}
use cookie_os.Unified.{Memory, VirtualAllocation, VirtualSlot, BackingSection}
use cookie_os.Unified.Offsets.{above, IsWindow, leb-above, add_above, distance-above}
use cookie_os.Unified.Remap.{
  Place, VirtRemapState, processing, finished, again, break_with, remap_page, remap_turn,
  remap_loop, map_inside,
}

module _ (m : Memory) where
  -- Every allocation is mapped to the section, `at` bytes and what stands before it into it.
  unfoldable pub map_each :
      BackingSection
      → VirtualSlot m
      → (force_readonly : Bool) → m.World
      → (at : ℕ) → List (VirtualAllocation m)
      → Outcome m.World
  unfolding remap_page
  map_each section slot force_readonly world at [] = ok world
  map_each section slot force_readonly world at (virt_alloc ∷ rest) = do
    world ← remap_page m world section slot virt_alloc at force_readonly
    map_each section slot force_readonly world (at + virt_alloc.size.value) rest

  abbrev pub sizes : List (VirtualAllocation m) → ℕ
  sizes = sum_by (λ virt_alloc. virt_alloc.size.value)

  abbrev pub HavePageSizes : List (VirtualAllocation m) → Type 0
  HavePageSizes = All (λ virt_alloc. IsPageSize virt_alloc.size.value)

  -- A section of `n` bytes that begins at `x`, `k` bytes above another place.
  abbrev pub place_at : ℤ → (k n : ℕ) → BackingSection → Bool → Place m
  place_at x k n section is_first = record {
    section = section;
    backing_start_offset = above x k;
    backing_end_offset = above x (k + n);
    is_first_section = is_first;
  }

  abbrev pub state_at :
      ℤ → (at : ℕ) → List (VirtualAllocation m) → VirtualSlot m → ℕ → VirtRemapState m
  state_at x at queue slot slot_idx = record {
    prev_alloc_end = above x at;
    to_process = queue;
    slot = slot;
    slot_idx = slot_idx;
  }

  abbrev pub pushed : VirtualSlot m → List (VirtualAllocation m) → VirtualSlot m
  pushed slot allocations = record slot { allocations = slot.allocations ++ allocations }

  -- The mapping reads no more of the slot than its flags.
  pub map_each-same :
      (section : BackingSection) (slot : VirtualSlot m) (force_readonly : Bool)
      (allocations : List (VirtualAllocation m)) (offset : PageAlignedOffsetT) (world : m.World)
      (at : ℕ) (queue : List (VirtualAllocation m))
      → map_each section
          (record slot { allocations = allocations; offset = offset })
          force_readonly
          world
          at
          queue
        ≡ map_each section slot force_readonly world at queue
  unfolding map_each
  map_each-same section slot force_readonly allocations offset world at [] = refl
  map_each-same section slot force_readonly allocations offset world at (virt_alloc ∷ rest) =
      >>=-congr (remap_page m world section slot virt_alloc at force_readonly) _ _ (λ world.
        map_each-same section slot force_readonly allocations offset world
          (at + virt_alloc.size.value) rest)

  map_each-pushed :
      (section : BackingSection) (force_readonly : Bool) (more : List (VirtualAllocation m))
      (slot : VirtualSlot m) (world : m.World) (at : ℕ) (queue : List (VirtualAllocation m))
      → map_each section (pushed slot more) force_readonly world at queue
        ≡ map_each section slot force_readonly world at queue
  map_each-pushed section force_readonly more slot world at queue =
      map_each-same section slot force_readonly (slot.allocations ++ more) slot.offset world at
        queue

  module _ (self_arc : ℕ) (force_readonly : Bool) (x : ℤ) (k n top : ℕ) (section : BackingSection)
      (is_first : Bool) (window : IsWindow x top) (k_aligned : k % page_align ≡ 0)
      (n_aligned : n % page_align ≡ 0) (fits : k + n ≤ top) where
    -- A turn on an allocation that lies inside the section.
    pub remap_turn-inside :
        (world : m.World) (at : ℕ) (rest : List (VirtualAllocation m)) (slot : VirtualSlot m)
        (slot_idx : ℕ) (virt_alloc : VirtualAllocation m)
        → k ≤ at
        → at % page_align ≡ 0
        → IsPageSize virt_alloc.size.value
        → at + virt_alloc.size.value ≤ k + n
        → remap_turn m self_arc force_readonly
            (place_at x k n section is_first)
            world
            (state_at x at rest slot slot_idx)
            virt_alloc
          ≡ (remap_page m world section slot virt_alloc (at - k) force_readonly >>= λ world. ok (
            world,
            again (
                state_at x
                  (at + virt_alloc.size.value)
                  rest
                  (pushed slot (virt_alloc ∷ []))
                  slot_idx),
          ))
    unfolding remap_turn map_inside remap_page
    remap_turn-inside world at rest slot slot_idx virt_alloc h al size_ok inside =
        rw
          (
            add_above x at top virt_alloc.size window al size_ok (omega arith),
            leb-above x (at + virt_alloc.size.value) k,
            lt→not-leb (at + virt_alloc.size.value) k (omega arith),
            leb-above x (k + n) at,
            lt→not-leb (k + n) at (omega arith),
            leb-above x k at,
            le→leb k at h,
            leb-above x (at + virt_alloc.size.value) (k + n),
            le→leb (at + virt_alloc.size.value) (k + n) inside,
            distance-above x k at h (omega arith) k_aligned al,
          )
          refl

    -- A turn on an allocation that begins at or after the end of the section.
    pub remap_turn-after :
        (world : m.World) (at : ℕ) (rest : List (VirtualAllocation m)) (slot : VirtualSlot m)
        (slot_idx : ℕ) (virt_alloc : VirtualAllocation m)
        → k + n ≤ at
        → at % page_align ≡ 0
        → IsPageSize virt_alloc.size.value
        → at + virt_alloc.size.value ≤ top
        → remap_turn m self_arc force_readonly
            (place_at x k n section is_first)
            world
            (state_at x at rest slot slot_idx)
            virt_alloc
          ≡ ok (
            world,
            break_with (state_at x (at + virt_alloc.size.value) (virt_alloc ∷ rest) slot slot_idx),
          )
    unfolding remap_turn
    remap_turn-after world at rest slot slot_idx virt_alloc h al size_ok inside =
        rw
          (
            add_above x at top virt_alloc.size window al size_ok inside,
            leb-above x (at + virt_alloc.size.value) k,
            lt→not-leb (at + virt_alloc.size.value) k (omega arith),
            leb-above x (k + n) at,
            le→leb (k + n) at h,
          )
          refl

    -- A slot whose allocations, one after the other, end inside the section or at its end, with enough
    -- fuel: all of them are mapped, each to the bytes of the section where it lies, and the slot keeps
    -- them in order.
    pub remap_loop-map_each :
        (world : m.World) (at : ℕ) (queue : List (VirtualAllocation m)) (slot : VirtualSlot m)
        (slot_idx fuel : ℕ)
        → k ≤ at
        → at % page_align ≡ 0
        → HavePageSizes queue
        → at + sizes queue ≤ k + n
        → length queue < fuel
        → remap_loop m self_arc force_readonly
            (place_at x k n section is_first)
            fuel
            world
            (state_at x at queue slot slot_idx)
          ≡ (map_each section slot force_readonly world (at - k) queue >>= λ world.
              ok (world, finished (state_at x (at + sizes queue) [] (pushed slot queue) slot_idx)))
    unfolding remap_loop map_each
    remap_loop-map_each world at queue slot slot_idx zero h al page_sizes inside enough =
        absurd (omega arith)
    remap_loop-map_each world at [] slot slot_idx (suc fuel) h al page_sizes inside enough =
        let e : at + 0 ≡ at = omega arith in rw (e, append-nil slot.allocations) refl
    remap_loop-map_each world at (virt_alloc ∷ rest) slot slot_idx (suc fuel) h al page_sizes inside
          enough =
        let e1 : at + virt_alloc.size.value - k ≡ at - k + virt_alloc.size.value = omega arith in
        let e2 : at + virt_alloc.size.value + sizes rest
            ≡ at + (virt_alloc.size.value + sizes rest) =
          omega arith in
        rw
          (remap_turn-inside world at rest slot slot_idx virt_alloc h al page_sizes.0 (omega arith))
          (>>=_chains (remap_page m world section slot virt_alloc (at - k) force_readonly) _ _ _ _
            (λ world.
              rw (e1, e2, map_each-pushed, append_assoc) at
                (remap_loop-map_each world (at + virt_alloc.size.value) rest
                  (pushed slot (virt_alloc ∷ [])) slot_idx fuel (omega arith) (omega arith)
                  page_sizes.1 (omega arith) (omega arith))))

    -- The same with an allocation that begins where the section ends: the loop stops at it, with the
    -- end of this allocation as the place of the next turn.
    pub remap_loop-stops :
        (world : m.World) (at : ℕ) (queue : List (VirtualAllocation m)) (late : VirtualAllocation m)
        (rest : List (VirtualAllocation m)) (slot : VirtualSlot m) (slot_idx fuel : ℕ)
        → k ≤ at
        → at % page_align ≡ 0
        → HavePageSizes queue
        → at + sizes queue ≡ k + n
        → IsPageSize late.size.value
        → k + n + late.size.value ≤ top
        → suc (length queue) ≤ fuel
        → remap_loop m self_arc force_readonly
            (place_at x k n section is_first)
            fuel
            world
            (state_at x at (queue ++ late ∷ rest) slot slot_idx)
          ≡ (map_each section slot force_readonly world (at - k) queue >>= λ world. ok (
            world,
            processing
                (state_at x (k + n + late.size.value) (late ∷ rest) (pushed slot queue) slot_idx),
          ))
    unfolding remap_loop map_each
    remap_loop-stops world at queue late rest slot slot_idx zero h al page_sizes full late_ok room
          enough =
        absurd (omega arith)
    remap_loop-stops world at [] late rest slot slot_idx (suc fuel) h al page_sizes full late_ok
          room enough =
        let e : at ≡ k + n = omega arith in
        rw
          (
            e,
            append-nil slot.allocations,
            remap_turn-after world (k + n) rest slot slot_idx late (omega arith) (omega arith)
                late_ok room,
          )
          refl
    remap_loop-stops world at (virt_alloc ∷ queue) late rest slot slot_idx (suc fuel) h al
          page_sizes full late_ok room enough =
        let e1 : at + virt_alloc.size.value - k ≡ at - k + virt_alloc.size.value = omega arith in
        rw
          (remap_turn-inside world at (queue ++ late ∷ rest) slot slot_idx virt_alloc h al
            page_sizes.0 (omega arith))
          (>>=_chains (remap_page m world section slot virt_alloc (at - k) force_readonly) _ _ _ _
            (λ world.
              rw (e1, map_each-pushed, append_assoc) at
                (remap_loop-stops world (at + virt_alloc.size.value) queue late rest
                  (pushed slot (virt_alloc ∷ [])) slot_idx fuel (omega arith) (omega arith)
                  page_sizes.1 (omega arith) late_ok room (omega arith))))
