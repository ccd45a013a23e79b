-- ===== src/Paging/Locked/Flush.antt =====
-- kernel/rust/src/memory/paging: the flush of the TLB after a change of an allocation, at any level of the
-- tables.
use cookie_os.Base.{
  ℕ, ◌+◌, ◌%◌, ◌^◌, ◌≤◌, ◌<◌, ◌≡◌, refl, ap, true, lt→ltb, le→leb, List, [], ◌∷◌, ◌++◌, All,
  Outcome, ok, ◌>>=◌, >>=-congr, arith,
}
use cookie_os.Paging.{page_align}
use cookie_os.Paging.AlignedAddress as Address
use cookie_os.Paging.Flags.{PageFlags}
use cookie_os.Paging.Allocations.{
  page, sub_table, PAllocItem, PAllocItems, no_items, item_then, PartialPageAllocation, partial,
  start_addr, end_addr,
}
use cookie_os.Paging.FirstFit.{Generics, MlffAllocator}
use cookie_os.Paging.FirstFit.Release.{deallocate}
use cookie_os.Paging.Mapping.{set_base_addr, set_absent}
use cookie_os.Paging.Locked.{
  Addresses, LevelBelow, LpawgOptions, LockedPageAllocator, flush_addrs, flush_items, inval_tlb_pg,
  invalidate_tlb, flush_if_active, guard_set_base_addr, guard_set_absent, guard_dealloc, GuardCall,
  run_call,
}

abbrev pub shift : ℕ → List ℕ → List ℕ
shift base [] = []
shift base (at ∷ rest) = (base + at) ∷ shift base rest

-- Where the pages of an allocation lie, from its start on.
unfoldable mutual
  pub page_offsets : PartialPageAllocation → List ℕ
  page_offsets (partial items page_size) = offsets_of items

  offsets_of : PAllocItems → List ℕ
  offsets_of no_items = []
  offsets_of (item_then item items) = item_offsets item ++ offsets_of items

  item_offsets : PAllocItem → List ℕ
  item_offsets (page index offset) = offset ∷ []
  item_offsets (sub_table index offset inner) = shift offset (page_offsets inner)

shift-append : (v : ℕ) (xs ys : List ℕ) → shift v (xs ++ ys) ≡ shift v xs ++ shift v ys
shift-append v [] ys = refl
shift-append v (x ∷ xs) ys = ap ((v + x) ∷◌) (shift-append v xs ys)

shift-shift : (v w : ℕ) (xs : List ℕ) → shift v (shift w xs) ≡ shift (v + w) xs
shift-shift v w [] = refl
shift-shift v w (x ∷ xs) =
    let e : v + (w + x) ≡ v + w + x = omega arith in rw (e, shift-shift v w xs) refl

module _ (addresses : Addresses) where
  abbrev IsCanonical : ℕ → Type 0
  IsCanonical a = addresses.is_canonical a ≡ true

  All-append-left : (xs ys : List ℕ) → All IsCanonical (xs ++ ys) → All IsCanonical xs
  All-append-left [] ys h = tt
  All-append-left (x ∷ xs) ys h = (h.0, All-append-left xs ys h.1)

  All-append-right : (xs ys : List ℕ) → All IsCanonical (xs ++ ys) → All IsCanonical ys
  All-append-right [] ys h = h
  All-append-right (x ∷ xs) ys h = All-append-right xs ys h.1

  mutual
    unfolding flush_addrs flush_items page_offsets

    flush_addrs_lem :
        (v : ℕ) (allocation : PartialPageAllocation)
        → All IsCanonical (shift v (page_offsets allocation))
        → flush_addrs addresses v allocation ≡ ok (shift v (page_offsets allocation))
    flush_addrs_lem v (partial items page_size) h = flush_items_lem v items h

    flush_items_lem :
        (v : ℕ) (items : PAllocItems)
        → All IsCanonical (shift v (offsets_of items))
        → flush_items addresses v items ≡ ok (shift v (offsets_of items))
    flush_items_lem v no_items h = refl
    flush_items_lem v (item_then (page index offset) items) h =
        rw (h.0, flush_items_lem v items h.1) refl
    flush_items_lem v (item_then (sub_table index offset inner) items) h =
        let apart = shift-append v (shift offset (page_offsets inner)) (offsets_of items) in
        let nested = shift-shift v offset (page_offsets inner) in
        let h' : All IsCanonical
            (shift (v + offset) (page_offsets inner) ++ shift v (offsets_of items)) =
          rw nested at (rw apart at h) in
        rw
          (
            apart,
            nested,
            flush_addrs_lem (v + offset) inner (
                All-append-left (shift (v + offset) (page_offsets inner))
                  (shift v (offsets_of items)) h'),
            flush_items_lem v items (
                All-append-right (shift (v + offset) (page_offsets inner))
                  (shift v (offsets_of items)) h'),
          )
          refl

  -- The addresses of the pages of an allocation in a table that begins at `voffset`.
  abbrev pub page_addrs : PartialPageAllocation → ℕ → List ℕ
  page_addrs allocation voffset = shift (start_addr allocation + voffset) (page_offsets allocation)

  -- An allocation at canonical addresses, which starts at a page boundary.
  pub record IsPlaced (allocation : PartialPageAllocation) (voffset : ℕ) : Type 0 where
    pub ordered : start_addr allocation ≤ end_addr allocation
    pub within : end_addr allocation + voffset < 2 ^ 64
    pub aligned : addresses.canonical_addr (start_addr allocation + voffset) % page_align ≡ 0
    pub canonical : All IsCanonical (page_addrs allocation voffset)

  module _ (g : Generics) (below : LevelBelow g.st) where
    pub invalidate_tlb_lem :
        (lpa : LockedPageAllocator g) (allocation : PartialPageAllocation) (voffset : ℕ)
        → IsPlaced allocation voffset
        → invalidate_tlb g addresses below lpa allocation voffset
          ≡ ok (record lpa { flushed = lpa.flushed ++ page_addrs allocation voffset })
    unfolding invalidate_tlb inval_tlb_pg Address.new
    invalidate_tlb_lem lpa allocation voffset placed =
        let low : start_addr allocation + voffset < 2 ^ 64 =
          omega (arith, placed.ordered, placed.within) in
        rw
          (
            lt→ltb _ _ low,
            placed.aligned,
            lt→ltb _ _ placed.within,
            le→leb _ _ placed.ordered,
            flush_addrs_lem (start_addr allocation + voffset) allocation placed.canonical,
          )
          refl

    flush_if_active_lem :
        (options : LpawgOptions) (lpa : LockedPageAllocator g) (allocation : PartialPageAllocation)
        (voffset : ℕ)
        → options.auto_flush_tlb ≡ true
        → IsPlaced allocation voffset
        → flush_if_active g addresses below options lpa allocation voffset
          ≡ ok (record lpa { flushed = lpa.flushed ++ page_addrs allocation voffset })
    unfolding flush_if_active
    flush_if_active_lem options lpa allocation voffset flush placed =
        rw flush (invalidate_tlb_lem lpa allocation voffset placed)

    -- A change of the entries of an allocation.
    pub data Change : Type 0 where
      map_to : (base_addr : ℕ) → PageFlags → Change
      mark_absent : (held : ℕ) → Change
      free : Change

    abbrev pub call_of : Change → PartialPageAllocation → ℕ → GuardCall g addresses below
    call_of (map_to base_addr flags) allocation voffset =
        GuardCall.set_base_addr_call allocation voffset base_addr flags
    call_of (mark_absent held) allocation voffset =
        GuardCall.set_absent_call allocation voffset held
    call_of free allocation voffset = GuardCall.dealloc_call allocation voffset

    -- What the change makes of the table, with no regard to the TLB.
    abbrev pub change :
        LpawgOptions → MlffAllocator g → Change → PartialPageAllocation → Outcome (MlffAllocator g)
    change options alloc (map_to base_addr flags) allocation =
        set_base_addr g (below.map_base options.is_global_page base_addr flags)
          options.is_global_page alloc allocation base_addr flags
    change options alloc (mark_absent held) allocation =
        set_absent g (below.map_absent held) alloc allocation held
    change options alloc free allocation = deallocate g alloc allocation

    -- A guard that flushes, after a change, flushes the address of each page of the allocation.
    pub run_call-call_of :
        (options : LpawgOptions) (lpa : LockedPageAllocator g) (what : Change)
        (allocation : PartialPageAllocation) (voffset : ℕ)
        → options.auto_flush_tlb ≡ true
        → IsPlaced allocation voffset
        → run_call g addresses below options lpa (call_of what allocation voffset) ≡ (
            change options lpa.alloc what allocation >>= λ alloc.
            ok (record lpa {
              alloc = alloc;
              flushed = lpa.flushed ++ page_addrs allocation voffset;
            }))
    unfolding run_call guard_set_base_addr guard_set_absent guard_dealloc
    run_call-call_of options lpa (map_to base_addr flags) allocation voffset flush placed =
        >>=-congr _ _ _ (λ alloc.
          flush_if_active_lem options (record lpa { alloc = alloc }) allocation voffset flush
            placed)
    run_call-call_of options lpa (mark_absent held) allocation voffset flush placed =
        >>=-congr _ _ _ (λ alloc.
          flush_if_active_lem options (record lpa { alloc = alloc }) allocation voffset flush
            placed)
    run_call-call_of options lpa free allocation voffset flush placed = >>=-congr _ _ _ (λ alloc.
        flush_if_active_lem options (record lpa { alloc = alloc }) allocation voffset flush placed)
