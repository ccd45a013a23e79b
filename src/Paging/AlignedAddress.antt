-- ===== src/Paging/AlignedAddress.antt =====
-- kernel/rust/src/memory/paging/api.rs, `PageAlignedAddressT`: a virtual address at a page boundary.
-- It rounds down.
use cookie_os.Base.{
  ℕ, ◌+◌, ◌-◌, ◌%◌, ◌≤◌, ◌<◌, ◌≡◌, inl, inr, ◌==◌, if◌then◌else◌, Bool-cases, Option, none, some,
  Outcome, ok, ◌>>=◌, ◌>>◌, assert, arith,
}
use cookie_os.Paging.{page_align}

pub record PageAlignedAddressT : Type 0 where
  pub value : ℕ

unfoldable pub new : ℕ → Outcome PageAlignedAddressT
new x = do assert (x % page_align == 0); ok (record { value = x })

unfoldable pub new_checked : ℕ → Outcome (Option PageAlignedAddressT)
unfolding new
new_checked x = if x % page_align == 0 then (do a ← new x; ok (some a)) else ok none

unfoldable pub get : PageAlignedAddressT → Outcome ℕ
get a = do assert (a.value % page_align == 0); ok a.value

unfoldable pub new_rounded_with_excess : ℕ → Outcome (PageAlignedAddressT × ℕ)
unfolding new
new_rounded_with_excess x =
    if x % page_align == 0
    then (do a ← new x; ok (a, 0))
    else (let excess = x % page_align in do a ← new (x - excess); ok (a, excess))

-- Every address rounds down, without a panic, to the start of its page: the greatest page boundary
-- not above it. The excess is the offset inside the page.
pub new_rounded_with_excess_greatest :
    (x : ℕ)
    → (a : PageAlignedAddressT) × (excess : ℕ) × (new_rounded_with_excess x ≡ ok (a, excess))
      × (get a ≡ ok a.value)
      × (a.value + excess ≡ x)
      × (excess < page_align)
      × ((y : ℕ) → y % page_align ≡ 0 → y ≤ x → y ≤ a.value)
unfolding new new_rounded_with_excess get
new_rounded_with_excess_greatest x = elim (Bool-cases (x % page_align == 0)) [
  | inl e ↦ (
    record { value = x },
    0,
    ground arith,
    ground arith,
    ground arith,
    ground arith,
    λ y k l. ground arith,
  )
  | inr e ↦ (
    record { value = x - x % page_align },
    x % page_align,
    ground arith,
    ground arith,
    ground arith,
    ground arith,
    λ y k l. ground arith,
  )
]
