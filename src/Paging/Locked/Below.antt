-- ===== src/Paging/Locked/Below.antt =====
-- kernel/rust/src/memory/paging/api.rs, `alloc_downwards` where the table has no room below the allocation.
use cookie_os.Base.{
  ℕ, ◌+◌, ◌-◌, ◌%◌, ◌<◌, ◌≡◌, refl, Bool, true, false, not, ◌==◌, leb, leb→le, lt→not-leb, Outcome,
  ok, panic, out_of_fuel, ◌>>=◌, assert, Ends, Ends-assert, arith,
}
use cookie_os.Paging.{page_align}
use cookie_os.Paging.AllocationSize as Size
use cookie_os.Paging.AllocationSize.{PageAllocationSizeT}
use cookie_os.Paging.AlignedAddress as Address
use cookie_os.Paging.AlignedAddress.{PageAlignedAddressT}
use cookie_os.Paging.FirstFit.{Generics}
use cookie_os.Paging.Locked.{Addresses, LockedPageAllocator, guard_allocate_at}
use cookie_os.Paging.Locked.Handles.{PageAllocation, start, locked_allocate_at, alloc_downwards}

Ends-panics {ℓ κ} :
    {A : Type ℓ} {B : Type κ} (P : A → Type 0) (call : Outcome A) (next : A → Outcome B)
    → Ends P call
    → ((value : A) → P value → next value ≡ panic)
    → (call >>= next) ≡ panic
Ends-panics P panic next e f = refl
Ends-panics P out_of_fuel next e f = absurd e
Ends-panics P (ok value) next e f = f value e

assert-Ends : (b : Bool) → Ends (λ _. b ≡ true) (assert b)
assert-Ends true = refl
assert-Ends false = tt

get_address : (a : PageAlignedAddressT) → Ends (λ n. n ≡ a.value) (Address.get a)
unfolding Address.get
get_address a = Ends-assert _ (a.value % page_align == 0) _ (λ _. refl)

new_address : (x : ℕ) → Ends (λ a. a.value ≡ x) (Address.new x)
unfolding Address.new
new_address x = Ends-assert _ (x % page_align == 0) _ (λ _. refl)

get_size : (s : PageAllocationSizeT) → Ends (λ n. n ≡ s.value) (Size.get s)
unfolding Size.get
get_size s =
    Ends-assert _ (s.value % page_align == 0) _
      (λ _. Ends-assert _ (not (s.value == 0)) _ (λ _. refl))

module _ (addresses : Addresses) (g : Generics) where
  -- An allocation at an address before the table panics.
  locked_allocate_at_before :
      (lpa : LockedPageAllocator g) (addr : PageAlignedAddressT) (size : PageAllocationSizeT)
      → addr.value < lpa.meta.offset
      → locked_allocate_at addresses g lpa addr size ≡ panic
  unfolding locked_allocate_at guard_allocate_at
  locked_allocate_at_before lpa addr size h =
      Ends-panics _ (Address.get addr) _ (get_address addr) (λ a e.
        Ends-panics _ (Size.get size) _ (get_size size) (λ n _.
          let before : leb lpa.meta.offset a ≡ false = lt→not-leb _ _ (omega (arith, e, h)) in
          rw before refl))

  -- On a table of any level: where less than `size` bytes lie between the beginning of the table and an
  -- allocation in it, `alloc_downwards` panics, and does not return `None`.
  pub alloc_downwards_panics :
      (lpa : LockedPageAllocator g) (self : PageAllocation) (size : PageAllocationSizeT)
      (first : PageAlignedAddressT)
      → start addresses self ≡ ok first
      → first.value < lpa.meta.offset + size.value
      → alloc_downwards addresses g lpa self size ≡ panic
  unfolding alloc_downwards
  alloc_downwards_panics lpa self size first e h = rw e (
      Ends-panics _ (Address.get first) _ (get_address first) (λ a at.
        Ends-panics _ (Size.get size) _ (get_size size) (λ n total.
          Ends-panics _ (assert (leb n a)) _ (assert-Ends (leb n a)) (λ _ room.
            Ends-panics _ (Address.new (a - n)) _ (new_address (a - n)) (λ target below.
              locked_allocate_at_before lpa target size
                (omega (arith, at, total, below, h, leb→le _ _ room)))))))
