-- ===== src/Paging/AllocationSize.antt =====
-- kernel/rust/src/memory/paging/api.rs, `PageAllocationSizeT`: a number of bytes that is a multiple
-- of the page size and not zero. It rounds up.
use cookie_os.Base.{
  ℕ, ◌+◌, ◌-◌, ◌%◌, ◌^◌, ◌≤◌, ◌<◌, ◌≡◌, ◌↔◌, inl, inr, not, ◌==◌, if◌then◌else◌, Bool-cases, Option,
  none, some, Outcome, ok, panic, ◌>>=◌, ◌>>◌, assert, arith,
}
use cookie_os.Paging.{page_align, is_usize}

pub record PageAllocationSizeT : Type 0 where
  pub value : ℕ

-- `new_const`
unfoldable pub new : ℕ → Outcome PageAllocationSizeT
new x = do assert (not (x == 0)); assert (x % page_align == 0); ok (record { value = x })

unfoldable pub new_checked : ℕ → Outcome (Option PageAllocationSizeT)
unfolding new
new_checked x =
    if x == 0 then ok none else if x % page_align == 0 then (do s ← new x; ok (some s)) else ok none

-- `get_const`, and `get_nz` without its test for zero
unfoldable pub get : PageAllocationSizeT → Outcome ℕ
get s = do assert (s.value % page_align == 0); assert (not (s.value == 0)); ok s.value

unfoldable pub new_rounded_with_excess : ℕ → Outcome (PageAllocationSizeT × ℕ)
unfolding new
new_rounded_with_excess x =
    if x == 0
    then ok (record { value = page_align }, page_align)
    else if x % page_align == 0
    then (do s ← new x; ok (s, 0))
    else (let excess = page_align - x % page_align in
        do assert (is_usize (x + excess)); s ← new (x + excess); ok (s, excess))

abbrev pub IsPageSize : ℕ → Type 0
IsPageSize n = (0 < n) × (n % page_align ≡ 0)

-- For a 64-bit number of bytes, rounding up to a page size panics exactly when the number and a whole
-- page together exceed 2 ^ 64.
new_rounded_with_excess_panics :
    (x : ℕ) → x < 2 ^ 64 → (new_rounded_with_excess x ≡ panic) ↔ (2 ^ 64 < x + page_align)
unfolding new new_rounded_with_excess
new_rounded_with_excess_panics x h = ground arith

-- A number of bytes that is at least one page below 2 ^ 64 rounds up, without a panic, to the least
-- nonzero multiple of the page size that holds it; the excess is what was added.
pub new_rounded_with_excess_least :
    (x : ℕ)
    → x + page_align ≤ 2 ^ 64
    → (s : PageAllocationSizeT) × (excess : ℕ) × (new_rounded_with_excess x ≡ ok (s, excess))
      × (get s ≡ ok (x + excess))
      × IsPageSize (x + excess)
      × ((y : ℕ) → IsPageSize y → x ≤ y → x + excess ≤ y)
unfolding new new_rounded_with_excess get
new_rounded_with_excess_least x h = elim (Bool-cases (x == 0)) [
  | inl e ↦ (
    record { value = page_align },
    page_align,
    rw e,
    ground arith,
    ground arith,
    λ y k l. ground arith,
  )
  | inr e ↦ elim (Bool-cases (x % page_align == 0)) [
    | inl f ↦
        (record { value = x }, 0, ground arith, ground arith, ground arith, λ y k l. ground arith)
    | inr f ↦ (
      record { value = x + (page_align - x % page_align) },
      page_align - x % page_align,
      ground arith,
      ground arith,
      ground arith,
      λ y k l. ground arith,
    )
  ]
]

-- The checked constructor accepts exactly the page sizes, and its value reads back as it was given.
pub new_checked-IsPageSize :
    (x : ℕ)
    → (IsPageSize x → (s : PageAllocationSizeT) × (new_checked x ≡ ok (some s)) × (get s ≡ ok x))
      × (¬ IsPageSize x → new_checked x ≡ ok none)
unfolding new new_checked get
new_checked-IsPageSize x = (λ h. (record { value = x }, ground arith, ground arith), ground arith)
