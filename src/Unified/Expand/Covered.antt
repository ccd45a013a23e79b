-- ===== src/Unified/Expand/Covered.antt =====
-- kernel/rust/src/memory/unified.rs: the sections of an allocation and its total size, as it grows.
use cookie_os.Base.{
  ℕ, ◌+◌, ◌%◌, ◌^◌, ◌≤◌, ◌<◌, ◌≡◌, refl, true, false, none, some, List, [], ◌∷◌, ◌++◌, sum_by,
  sum_by-append, All, ok, arith,
}
use cookie_os.Base.Int.{ℤ, pos, pos_part, neg_part, ◌+ℤ◌, ◌-ℤ◌, rem_euclid}
use cookie_os.Paging.{page_align}
use cookie_os.Paging.AllocationSize as Size
use cookie_os.Paging.AllocationSize.{PageAllocationSizeT, IsPageSize}
use cookie_os.Unified.{
  Memory, UnifiedAllocationInner, BackingType, BackingSection, backing_section, AllocationBacking,
  get_size,
}
use cookie_os.Unified.Offsets.{
  above, above_zero, IsWindow, add_above, sub_size, rem_below, below_above,
}
use cookie_os.Unified.Expand.{
  add_sizes, allocate_new_backing, expand_downwards, expand_upwards, top_of_sections,
}

abbrev size_of : BackingSection → ℕ
size_of section = (get_size section).value

-- The sections are not empty, have whole pages, and the total is their sum.
pub record IsCovered (b : AllocationBacking) : Type 0 where
  pub aligned : rem_euclid b.offset.value page_align ≡ 0
  pub total : b.total_size.value ≡ sum_by size_of b.sections
  pub page_sizes : All (λ section. IsPageSize (size_of section)) b.sections
  pub total_ok : IsPageSize b.total_size.value

add_sizes_lem :
    (total size : PageAllocationSizeT)
    → IsPageSize total.value
    → IsPageSize size.value
    → total.value + size.value < 2 ^ 64
    → add_sizes total size ≡ ok (record { value = total.value + size.value })
unfolding add_sizes Size.get Size.new
add_sizes_lem total size h k fits = ground arith

All-append :
    (xs ys : List BackingSection)
    → All (λ s. IsPageSize (size_of s)) xs
    → All (λ s. IsPageSize (size_of s)) ys
    → All (λ s. IsPageSize (size_of s)) (xs ++ ys)
All-append [] ys h k = k
All-append (x ∷ xs) ys h k = (h.0, All-append xs ys h.1 k)

module _ (m : Memory) where
  top_from :
      (x : ℤ) (top at : ℕ) (sections : List BackingSection)
      → IsWindow x top
      → at % page_align ≡ 0
      → All (λ section. IsPageSize (size_of section)) sections
      → at + sum_by size_of sections ≤ top
      → top_of_sections m (above x at) sections ≡ ok (above x (at + sum_by size_of sections))
  unfolding top_of_sections
  top_from x top at [] window al h room = let e : at + 0 ≡ at = omega arith in rw e refl
  top_from x top at (section ∷ sections) window al h room =
      let e : at + size_of section + sum_by size_of sections
          ≡ at + (size_of section + sum_by size_of sections) =
        omega arith in
      rw (add_above x at top (get_size section) window al h.0 (omega arith)) (
        rw e at (
          top_from x top (at + size_of section) sections window (omega (arith, h.0.1)) h.1
            (omega arith)))

  -- The top offset that `expand_vmem` adds up from the sections is the offset and the total size.
  pub top_of_sections_lem :
      (b : AllocationBacking)
      → IsCovered b
      → IsWindow b.offset.value b.total_size.value
      → top_of_sections m b.offset b.sections
        ≡ ok (record { value = b.offset.value +ℤ pos b.total_size.value })
  top_of_sections_lem b covered window =
      let e : 0 + sum_by size_of b.sections ≡ b.total_size.value = omega (arith, covered.total) in
      rw (above_zero b.offset.value, e) at
        (top_from b.offset.value b.total_size.value 0 b.sections window refl covered.page_sizes
          (omega (arith, covered.total)))

  -- With memory for the new section, an expansion downwards by `size` returns: the new section is the
  -- first one, its total size is still the sum of its sections, and the offset is lower by `size`, so
  -- that everything that was there keeps its offset.
  pub expand_downwards_lem :
      (world after : m.World) (self : UnifiedAllocationInner m) (size : PageAllocationSizeT)
      (backing : BackingType)
      → IsCovered self.backing
      → IsPageSize size.value
      → self.backing.total_size.value + size.value < 2 ^ 63
      → pos_part self.backing.offset.value < 2 ^ 63
      → neg_part self.backing.offset.value + size.value ≤ 2 ^ 63
      → allocate_new_backing m world self.backing.requested_type size ≡ ok (after, some backing)
      → (grown : UnifiedAllocationInner m) × (expand_downwards m world self size
          ≡ ok (after, grown, true))
        × IsCovered grown.backing
        × (grown.backing.sections ≡ backing_section backing size ∷ self.backing.sections)
        × (grown.backing.offset.value +ℤ pos size.value ≡ self.backing.offset.value)
        × (grown.virt_slots ≡ self.virt_slots)
  unfolding expand_downwards
  expand_downwards_lem world after self size backing covered size_ok fits high low allocated = (
    record self {
      backing = record self.backing {
        sections = backing_section backing size ∷ self.backing.sections;
        total_size = record { value = self.backing.total_size.value + size.value };
        offset = record { value = self.backing.offset.value -ℤ pos size.value };
      };
    },
    rw
        (
          allocated,
          add_sizes_lem self.backing.total_size size covered.total_ok size_ok (omega arith),
          sub_size self.backing.offset size covered.aligned size_ok high low (omega arith),
        )
        refl,
    record {
      aligned = rem_below self.backing.offset.value size.value covered.aligned size_ok.1;
      total = omega (arith, covered.total);
      page_sizes = (size_ok, covered.page_sizes);
      total_ok = omega (arith, covered.total_ok.0, covered.total_ok.1, size_ok.1);
    },
    refl,
    below_above self.backing.offset.value size.value,
    refl,
  )

  -- The same upwards: the offset stays, and the new section is the last one.
  pub expand_upwards_lem :
      (world after : m.World) (self : UnifiedAllocationInner m) (size : PageAllocationSizeT)
      (backing : BackingType)
      → IsCovered self.backing
      → IsPageSize size.value
      → self.backing.total_size.value + size.value < 2 ^ 63
      → allocate_new_backing m world self.backing.requested_type size ≡ ok (after, some backing)
      → (grown : UnifiedAllocationInner m) × (expand_upwards m world self size
          ≡ ok (after, grown, true))
        × IsCovered grown.backing
        × (grown.backing.sections ≡ self.backing.sections ++ backing_section backing size ∷ [])
        × (grown.backing.offset ≡ self.backing.offset)
        × (grown.virt_slots ≡ self.virt_slots)
  unfolding expand_upwards
  expand_upwards_lem world after self size backing covered size_ok fits allocated = (
    record self {
      backing = record self.backing {
        sections = self.backing.sections ++ backing_section backing size ∷ [];
        total_size = record { value = self.backing.total_size.value + size.value };
      };
    },
    rw
        (
          allocated,
          add_sizes_lem self.backing.total_size size covered.total_ok size_ok (omega arith),
        )
        refl,
    record {
      aligned = covered.aligned;
      total = omega (
        arith,
        covered.total,
        sum_by-append size_of self.backing.sections (backing_section backing size ∷ []),
      );
      page_sizes =
          All-append self.backing.sections (backing_section backing size ∷ []) covered.page_sizes
            (size_ok, tt);
      total_ok = omega (arith, covered.total_ok.0, covered.total_ok.1, size_ok.1);
    },
    refl,
    refl,
    refl,
  )

  -- Without memory for the new section, neither expansion changes the allocation.
  pub expand_without_memory :
      (world after : m.World) (self : UnifiedAllocationInner m) (size : PageAllocationSizeT)
      → allocate_new_backing m world self.backing.requested_type size ≡ ok (after, none)
      → (expand_downwards m world self size ≡ ok (after, self, false))
        × (expand_upwards m world self size ≡ ok (after, self, false))
  unfolding expand_downwards expand_upwards
  expand_without_memory world after self size none_left = (rw none_left refl, rw none_left refl)
