-- ===== src/Paging/AlignedOffset.antt =====
-- kernel/rust/src/memory/paging/api.rs, `PageAlignedOffsetT`: a signed number of bytes that is a
-- multiple of the page size. It rounds down, towards minus infinity.
use cookie_os.Base.{
  ℕ, ◌+◌, ◌-◌, ◌%◌, ◌^◌, ◌<◌, ◌≡◌, inl, inr, Bool, true, ltb, leb, ◌==◌, ◌&&◌, if◌then◌else◌,
  Bool-cases, Option, none, some, Outcome, ok, ◌>>=◌, ◌>>◌, assert, arith,
}
use cookie_os.Base.Int.{ℤ, pos, negsuc, pos_part, neg_part, ◌+ℤ◌, ◌-ℤ◌, ◌≤ℤ◌, rem_euclid}
use cookie_os.Paging.{page_align}

abbrev pub is_isize : ℤ → Bool
is_isize x = ltb (pos_part x) (2 ^ 63) && leb (neg_part x) (2 ^ 63)

pub record PageAlignedOffsetT : Type 0 where
  pub value : ℤ

unfoldable pub new : ℤ → Outcome PageAlignedOffsetT
new x = do assert (rem_euclid x page_align == 0); ok (record { value = x })

unfoldable pub new_checked : ℤ → Outcome (Option PageAlignedOffsetT)
unfolding new
new_checked x = if rem_euclid x page_align == 0 then (do o ← new x; ok (some o)) else ok none

unfoldable pub get : PageAlignedOffsetT → Outcome ℤ
get o = do assert (rem_euclid o.value page_align == 0); ok o.value

unfoldable pub new_rounded_with_excess : ℤ → Outcome (PageAlignedOffsetT × ℕ)
unfolding new
new_rounded_with_excess x =
    if rem_euclid x page_align == 0
    then (do o ← new x; ok (o, 0))
    else (let excess = rem_euclid x page_align in
        do assert (is_isize (x -ℤ pos excess)); o ← new (x -ℤ pos excess); ok (o, excess))

unfoldable pub add : PageAlignedOffsetT → PageAlignedOffsetT → Outcome PageAlignedOffsetT
unfolding new
add o p = do assert (is_isize (o.value +ℤ p.value)); new (o.value +ℤ p.value)

unfoldable pub sub : PageAlignedOffsetT → PageAlignedOffsetT → Outcome PageAlignedOffsetT
unfolding new
sub o p = do assert (is_isize (o.value -ℤ p.value)); new (o.value -ℤ p.value)

below_pos :
    (n : ℕ) (y : ℤ) → rem_euclid y page_align ≡ 0 → y ≤ℤ pos n → y ≤ℤ pos (n - n % page_align)
below_pos n (pos m) k l = ground arith
below_pos n (negsuc m) k l = omega arith

below_negsuc :
    (n : ℕ) (y : ℤ)
    → rem_euclid y page_align ≡ 0
    → y ≤ℤ negsuc n
    → y ≤ℤ negsuc (n + (page_align - 1 - n % page_align))
below_negsuc n (pos m) k l = absurd (omega arith)
below_negsuc n (negsuc m) k l = ground arith

-- Every 64-bit offset, negative ones included, rounds down without a panic to the greatest multiple
-- of the page size that is not above it.
pub new_rounded_with_excess_greatest :
    (x : ℤ)
    → is_isize x ≡ true
    → (o : PageAlignedOffsetT) × (excess : ℕ) × (new_rounded_with_excess x ≡ ok (o, excess))
      × (get o ≡ ok o.value)
      × (o.value +ℤ pos excess ≡ x)
      × (excess < page_align)
      × ((y : ℤ) → rem_euclid y page_align ≡ 0 → y ≤ℤ x → y ≤ℤ o.value)
unfolding new new_rounded_with_excess get
new_rounded_with_excess_greatest (pos n) h = elim (Bool-cases (n % page_align == 0)) [
  | inl e ↦ (
    record { value = pos n },
    0,
    ground arith,
    ground arith,
    ground arith,
    ground arith,
    λ y k l. l,
  )
  | inr e ↦ (
    record { value = pos (n - n % page_align) },
    n % page_align,
    ground arith,
    ground arith,
    ground arith,
    ground arith,
    λ y k l. below_pos n y k l,
  )
]
new_rounded_with_excess_greatest (negsuc n) h =
    elim (Bool-cases (page_align - 1 - n % page_align == 0)) [
      | inl e ↦ (
        record { value = negsuc n },
        0,
        ground arith,
        ground arith,
        ground arith,
        ground arith,
        λ y k l. l,
      )
      | inr e ↦ (
        record { value = negsuc (n + (page_align - 1 - n % page_align)) },
        page_align - 1 - n % page_align,
        ground arith,
        ground arith,
        ground arith,
        ground arith,
        λ y k l. below_negsuc n y k l,
      )
    ]
