-- ===== src/Unified/Remap/Ends.antt =====
-- kernel/rust/src/memory/unified.rs: the calls that `_remap_pages` makes come to an end.
use cookie_os.Base.{
  ℕ, ◌+◌, ◌<◌, ◌≡◌, refl, Bool, true, Ends, Ends->>=, Ends-if, Ends-assert, Option-cases, leb, Done,
  Done->>=, Done-assert, Done-expect, Bool-cases, inl, inr, not, ltb, ◌==◌, ◌%◌, ◌^◌, arith,
}
use cookie_os.Base.Int.{ℤ, pos, negsuc, neg_part, ◌+ℤ◌, ◌-ℤ◌, rem_euclid}
use cookie_os.Paging.{page_align, is_usize}
use cookie_os.Paging.AllocationSize as Size
use cookie_os.Paging.AllocationSize.{PageAllocationSizeT}
use cookie_os.Paging.AlignedOffset as Offset
use cookie_os.Paging.AlignedOffset.{PageAlignedOffsetT, is_isize}
use cookie_os.Paging.AlignedAddress.{PageAlignedAddressT}
use cookie_os.Paging.AlignedAddress as Address
use cookie_os.Paging.Flags.{PageFlags}
use cookie_os.Unified.{
  Memory, VirtualAllocation, VirtualSlot, BackingSection, AbsentPagesItemA, get_phys_addr,
  size_to_offset, add_offset_and_size, ltb_offset, new_virtual, drop_virtual,
}
use cookie_os.Unified.Remap.{distance, distance_size, remap_page}

-- The sum of an offset and a size lies after the offset.
unfoldable pub After : PageAlignedOffsetT → PageAlignedOffsetT → Type 0
After o e = ltb_offset o e ≡ true

sum-After : (x : ℤ) (n : ℕ) → 0 < n → After (record { value = x }) (record { value = x +ℤ pos n })
unfolding After
sum-After (pos k) n h = ground arith
sum-After (negsuc k) n h = ground arith

-- A size is not zero, or the call panics.
get-positive : (s : PageAllocationSizeT) → Ends (λ n. 0 < n) (Size.get s)
unfolding Size.get
get-positive s =
    Ends-assert _ (s.value % page_align == 0) _
      (λ _. Ends-assert _ (not (s.value == 0)) _ (λ h. ground arith))

size_to_offset-positive :
    (s : PageAllocationSizeT)
    → Ends (λ o. (n : ℕ) × (0 < n) × (o ≡ record { value = pos n })) (size_to_offset s)
unfolding size_to_offset Offset.new_checked Offset.new
size_to_offset-positive s = Ends->>= _ _ (Size.get s) _ (get-positive s) (λ n h.
    Ends-assert _ (ltb n (2 ^ 63)) _ (λ _. elim (Bool-cases (n % page_align == 0)) [
      | inl e ↦ rw (e) (n, h, refl)
      | inr e ↦ rw (e) tt
    ]))

pub add-After :
    (o : PageAlignedOffsetT) (s : PageAllocationSizeT) → Ends (After o) (add_offset_and_size o s)
unfolding add_offset_and_size Offset.add Offset.new
add-After o s = Ends->>= _ _ (size_to_offset s) _ (size_to_offset-positive s) (λ r3 (n, h, e).
    Ends-assert _ (is_isize (o.value +ℤ r3.value)) _ (λ _.
      Ends-assert _ (rem_euclid (o.value +ℤ r3.value) page_align == 0) _
        (λ _. rw (e) (sum-After o.value n h))))

-- No call of what is below runs for ever.
pub record AlwaysEnds (m : Memory) : Type 0 where
  pub start : (a : m.PageAllocation) → Done (m.start a)
  pub size : (a : m.PageAllocation) → Done (m.size a)
  pub pt_phys_addr : (w : m.World) (a : m.PageAllocation) → Done (m.pt_phys_addr w a)
  pub set_base_addr :
      (w : m.World) (a : m.PageAllocation) (n : ℕ) (flags : PageFlags)
      → Done (m.set_base_addr w a n flags)
  pub set_absent : (w : m.World) (a : m.PageAllocation) (n : ℕ) → Done (m.set_absent w a n)
  pub split_dyn :
      (w : m.World) (a : m.PageAllocation) (s : PageAllocationSizeT) → Done (m.split_dyn w a s)
  pub drop_page_allocation :
      (w : m.World) (a : m.PageAllocation) → Done (m.drop_page_allocation w a)
  pub new_descriptor :
      (w : m.World) (pt n : ℕ) (a : AbsentPagesItemA) → Done (m.new_descriptor w pt n a)
  pub drop_descriptor : (w : m.World) (n : ℕ) → Done (m.drop_descriptor w n)

pub distance-Done : (o p : PageAlignedOffsetT) → Done (distance o p)
unfolding distance Offset.sub Offset.new Offset.get
distance-Done o p =
    Done->>= (Offset.sub o p) _
      (Done-assert (is_isize (o.value -ℤ p.value)) _
        (Done-assert (rem_euclid (o.value -ℤ p.value) page_align == 0) _ tt))
      (λ d.
        Done->>= (Offset.get d) _ (Done-assert (rem_euclid d.value page_align == 0) _ tt)
          (λ z. Done-assert (leb (neg_part z) 0) _ tt))

new_checked-Done : (n : ℕ) → Done (Size.new_checked n)
unfolding Size.new_checked Size.new
new_checked-Done n =
    Ends-if _ (n == 0) _ _ (λ _. tt)
      (λ _.
        Ends-if _ (n % page_align == 0) _ _
          (λ _.
            Done->>= (Size.new n) _
              (Done-assert (not (n == 0)) _ (Done-assert (n % page_align == 0) _ tt)) (λ s. tt))
          (λ _. tt))

pub distance_size-Done : (o p : PageAlignedOffsetT) → Done (distance_size o p)
unfolding distance_size
distance_size-Done o p =
    Done->>= (distance o p) _ (distance-Done o p)
      (λ n. Done->>= (Size.new_checked n) _ (new_checked-Done n) (λ s. Done-expect s))

module _ (m : Memory) (ends : AlwaysEnds m) where
  pub new_virtual-Done :
      (w : m.World) (a : m.PageAllocation) (i : AbsentPagesItemA) → Done (new_virtual m w a i)
  unfolding new_virtual Address.get
  new_virtual-Done w a i = Done->>= (m.size a) _ (ends.size a) (λ s.
      Done->>= (m.pt_phys_addr w a) _ (ends.pt_phys_addr w a) (λ pt.
        Done->>= (m.start a) _ (ends.start a) (λ start.
          Done->>= (Address.get start) _ (Done-assert (start.value % page_align == 0) _ tt) (λ n.
            Done->>= (m.new_descriptor w pt n i) _ (ends.new_descriptor w pt n i) (λ _. tt)))))

  pub drop_virtual-Done : (w : m.World) (v : VirtualAllocation m) → Done (drop_virtual m w v)
  unfolding drop_virtual
  drop_virtual-Done w v =
      Done->>= (m.drop_page_allocation w v.allocation) _ (ends.drop_page_allocation w v.allocation)
        (λ w1. ends.drop_descriptor w1 v.absent_pages_table_handle)

  pub remap_page-Done :
      (w : m.World) (section : BackingSection) (slot : VirtualSlot m) (v : VirtualAllocation m)
      (n : ℕ) (read_only : Bool)
      → Done (remap_page m w section slot v n read_only)
  unfolding remap_page
  remap_page-Done w section slot v n read_only = elim (Option-cases (get_phys_addr section)) [
    | inl e ↦ rw (remap_page, e) (ends.set_absent w v.allocation v.absent_pages_table_handle)
    | inr (addr, e) ↦
        rw (remap_page, e)
          (Done-assert (is_usize (addr + n)) _ (ends.set_base_addr w v.allocation (addr + n) _))
  ]
