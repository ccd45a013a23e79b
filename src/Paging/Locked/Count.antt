-- ===== src/Paging/Locked/Count.antt =====
-- kernel/rust/src/memory/paging/api.rs: what a call of a guard leaves of the count of users.
use cookie_os.Base.{
  ℕ, ◌+◌, ◌-◌, ◌≡◌, sym, ap, ◌∙◌, inl, inr, leb, Bool-cases, ok, assert, >>=-eq-ok, ok_injective,
}
use cookie_os.Paging.{is_usize}
use cookie_os.Paging.AlignedAddress as Address
use cookie_os.Paging.Allocations.{PartialPageAllocation, start_addr}
use cookie_os.Paging.FirstFit.{Generics}
use cookie_os.Paging.FirstFit.Search.{allocate, allocate_at}
use cookie_os.Paging.Split.{split_alloc_inner}
use cookie_os.Paging.Locked.Flush.{Change, change}
use cookie_os.Paging.Locked.{
  Addresses, LevelBelow, LockedPageAllocator, LpawgOptions, GuardCall, run_call, flush_if_active,
  invalidate_tlb, inval_tlb_pg, guard_set_base_addr, guard_set_absent, guard_dealloc, guard_split,
  guard_allocate, guard_allocate_at,
}

module _ (g : Generics) (addresses : Addresses) (below : LevelBelow g.st) where
  invalidate_tlb-active_count :
      (lpa after : LockedPageAllocator g) (allocation : PartialPageAllocation) (voffset : ℕ)
      → invalidate_tlb g addresses below lpa allocation voffset ≡ ok after
      → after.active_count ≡ lpa.active_count
  unfolding invalidate_tlb
  invalidate_tlb-active_count lpa after allocation voffset e =
      let at = start_addr allocation + voffset in
      let (_, _, e1) = >>=-eq-ok (assert (is_usize at)) _ e in
      let (_, _, e2) = >>=-eq-ok (Address.new (addresses.canonical_addr at)) _ e1 in
      let (_, _, e3) = >>=-eq-ok (inval_tlb_pg addresses allocation voffset) _ e2 in
      sym (ap (λ t. t.active_count) (ok_injective e3))

  flush_if_active-active_count :
      (options : LpawgOptions) (lpa after : LockedPageAllocator g)
      (allocation : PartialPageAllocation) (voffset : ℕ)
      → flush_if_active g addresses below options lpa allocation voffset ≡ ok after
      → after.active_count ≡ lpa.active_count
  unfolding flush_if_active
  flush_if_active-active_count options lpa after allocation voffset e =
      elim (Bool-cases options.auto_flush_tlb) [
        | inl f ↦ invalidate_tlb-active_count lpa after allocation voffset (rw f at e)
        | inr f ↦ sym (ap (λ t. t.active_count) (ok_injective (rw f at e)))
      ]

  -- No call of a guard changes the count of users.
  pub run_call-active_count :
      (options : LpawgOptions) (lpa after : LockedPageAllocator g)
      (call : GuardCall g addresses below)
      → run_call g addresses below options lpa call ≡ ok after
      → after.active_count ≡ lpa.active_count
  unfolding run_call guard_set_base_addr guard_set_absent guard_dealloc guard_split guard_allocate
      guard_allocate_at
  run_call-active_count options lpa after (GuardCall.set_base_addr_call al vo base flags) e =
      let (alloc, _, e1) =
        >>=-eq-ok (change addresses g below options lpa.alloc (Change.map_to base flags) al) _ e in
      flush_if_active-active_count options (record lpa { alloc = alloc }) after al vo e1
  run_call-active_count options lpa after (GuardCall.set_absent_call al vo held) e =
      let (alloc, _, e1) =
        >>=-eq-ok (change addresses g below options lpa.alloc (Change.mark_absent held) al) _ e in
      flush_if_active-active_count options (record lpa { alloc = alloc }) after al vo e1
  run_call-active_count options lpa after (GuardCall.dealloc_call al vo) e =
      let (alloc, _, e1) =
        >>=-eq-ok (change addresses g below options lpa.alloc Change.free al) _ e in
      flush_if_active-active_count options (record lpa { alloc = alloc }) after al vo e1
  run_call-active_count options lpa after (GuardCall.split_call al mid) e =
      let (_, e0, e1) = >>=-eq-ok (guard_split g addresses below lpa al mid) _ e in
      let (_, _, e2) = >>=-eq-ok (split_alloc_inner g below.split lpa.alloc al mid) _ e0 in
      sym (ap (λ t. t.active_count) (ok_injective e1))
      ∙ sym (ap (λ t. t.0.active_count) (ok_injective e2))
  run_call-active_count options lpa after (GuardCall.allocate_call size strat) e =
      let (_, e0, e1) = >>=-eq-ok (guard_allocate g lpa size strat) _ e in
      let (_, _, e2) = >>=-eq-ok (allocate g lpa.alloc size strat) _ e0 in
      sym (ap (λ t. t.active_count) (ok_injective e1))
      ∙ sym (ap (λ t. t.0.active_count) (ok_injective e2))
  run_call-active_count options lpa after (GuardCall.allocate_at_call addr size) e =
      let (_, e0, e1) = >>=-eq-ok (guard_allocate_at g lpa addr size) _ e in
      let (_, _, e2) = >>=-eq-ok (assert (leb lpa.meta.offset addr)) _ e0 in
      let (_, _, e3) = >>=-eq-ok (allocate_at g lpa.alloc (addr - lpa.meta.offset) size) _ e2 in
      sym (ap (λ t. t.active_count) (ok_injective e1))
      ∙ sym (ap (λ t. t.0.active_count) (ok_injective e3))
