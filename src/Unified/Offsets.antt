-- ===== src/Unified/Offsets.antt =====
-- Offsets of kernel/rust/src/memory/unified.rs counted from one place: how they are added, compared and
-- subtracted.
use cookie_os.Base.{ℕ, ◌+◌, ◌-◌, ◌%◌, ◌^◌, ◌≤◌, ◌<◌, ◌≡◌, refl, true, ltb, leb, ok, arith}
use cookie_os.Base.Int.{ℤ, pos, negsuc, pos_part, neg_part, ◌+ℤ◌, ◌-ℤ◌, rem_euclid}
use cookie_os.Paging.{page_align}
use cookie_os.Paging.AllocationSize as Size
use cookie_os.Paging.AllocationSize.{PageAllocationSizeT, IsPageSize}
use cookie_os.Paging.AlignedOffset as Offset
use cookie_os.Paging.AlignedOffset.{PageAlignedOffsetT, is_isize}
use cookie_os.Unified.{
  size_to_offset, add_offset_and_size, sub_offset_and_size, leb_offset, ltb_offset,
}
use cookie_os.Unified.Remap.{distance}

-- The offset `n` bytes above `x`.
abbrev pub above : ℤ → ℕ → PageAlignedOffsetT
above x n = record { value = x +ℤ pos n }

-- The bytes from `x` up to `x + n` have offsets.
pub record IsWindow (x : ℤ) (n : ℕ) : Type 0 where
  pub aligned : rem_euclid x page_align ≡ 0
  pub low : neg_part x ≤ 2 ^ 63
  pub high : pos_part x + n < 2 ^ 63

pub leb-above : (x : ℤ) (a b : ℕ) → leb_offset (above x a) (above x b) ≡ leb a b
leb-above (pos n) a b = ground arith
leb-above (negsuc n) a b = ground arith

pub ltb-above : (x : ℤ) (a b : ℕ) → ltb_offset (above x a) (above x b) ≡ ltb a b
ltb-above (pos n) a b = ground arith
ltb-above (negsuc n) a b = ground arith

pub above_zero : (x : ℤ) → x +ℤ pos 0 ≡ x
above_zero (pos n) = ground arith
above_zero (negsuc n) = ground arith

rem_above :
    (x : ℤ) (a : ℕ)
    → rem_euclid x page_align ≡ 0
    → a % page_align ≡ 0
    → rem_euclid (x +ℤ pos a) page_align ≡ 0
rem_above (pos n) a h k = ground arith
rem_above (negsuc n) a h k = ground arith

above_above : (x : ℤ) (a b : ℕ) → (x +ℤ pos a) +ℤ pos b ≡ x +ℤ pos (a + b)
above_above (pos n) a b = ground arith
above_above (negsuc n) a b = ground arith

isize_above : (x : ℤ) (a n : ℕ) → IsWindow x n → a ≤ n → is_isize (x +ℤ pos a) ≡ true
isize_above (pos k) a n w h = ground arith
isize_above (negsuc k) a n w h = ground arith

size_to_offset_lem :
    (s : PageAllocationSizeT)
    → IsPageSize s.value
    → s.value < 2 ^ 63
    → size_to_offset s ≡ ok (record { value = pos s.value })
unfolding size_to_offset Size.get Offset.new_checked Offset.new
size_to_offset_lem s h k = ground arith

pub add_above :
    (x : ℤ) (a n : ℕ) (s : PageAllocationSizeT)
    → IsWindow x n
    → a % page_align ≡ 0
    → IsPageSize s.value
    → a + s.value ≤ n
    → add_offset_and_size (above x a) s ≡ ok (above x (a + s.value))
unfolding add_offset_and_size Offset.add Offset.new
add_above x a n s w al h k =
    rw
      (
        size_to_offset_lem s h (omega (arith, w.high)),
        above_above x a s.value,
        isize_above x (a + s.value) n w k,
        rem_above x (a + s.value) w.aligned (omega (arith, h.1)),
      )
      refl

sub_above : (x : ℤ) (a b : ℕ) → a ≤ b → (x +ℤ pos b) -ℤ (x +ℤ pos a) ≡ pos (b - a)
sub_above (pos n) a b h = ground arith
sub_above (negsuc n) a b h = ground arith

pub distance-above :
    (x : ℤ) (a b : ℕ)
    → a ≤ b
    → b < 2 ^ 63
    → a % page_align ≡ 0
    → b % page_align ≡ 0
    → distance (above x b) (above x a) ≡ ok (b - a)
unfolding distance Offset.sub Offset.new Offset.get
distance-above x a b h k al bl = rw (sub_above x a b h) (ground arith)

pub rem_below :
    (x : ℤ) (a : ℕ)
    → rem_euclid x page_align ≡ 0
    → a % page_align ≡ 0
    → rem_euclid (x -ℤ pos a) page_align ≡ 0
rem_below (pos n) a h k = ground arith
rem_below (negsuc n) a h k = ground arith

isize_below :
    (x : ℤ) (a : ℕ) → pos_part x < 2 ^ 63 → neg_part x + a ≤ 2 ^ 63 → is_isize (x -ℤ pos a) ≡ true
isize_below (pos k) a w h = ground arith
isize_below (negsuc k) a w h = ground arith

-- Subtracting a size, and that adding it again gives the same offset.
pub sub_size :
    (o : PageAlignedOffsetT) (s : PageAllocationSizeT)
    → rem_euclid o.value page_align ≡ 0
    → IsPageSize s.value
    → pos_part o.value < 2 ^ 63
    → neg_part o.value + s.value ≤ 2 ^ 63
    → s.value < 2 ^ 63
    → sub_offset_and_size o s ≡ ok (record { value = o.value -ℤ pos s.value })
unfolding sub_offset_and_size Offset.sub Offset.new
sub_size o s al h high low fits =
    rw
      (
        size_to_offset_lem s h fits,
        isize_below o.value s.value high low,
        rem_below o.value s.value al h.1,
      )
      refl

pub below_above : (x : ℤ) (a : ℕ) → (x -ℤ pos a) +ℤ pos a ≡ x
below_above (pos n) a = ground arith
below_above (negsuc n) a = ground arith
