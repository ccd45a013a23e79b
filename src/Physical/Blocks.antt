-- ===== src/Physical/Blocks.antt =====
-- physical.rs: arithmetic of the blocks that `block_size` and `buddies` describe.
use native.Mathlib.Nat.{
  pow-suc, div-add-mod', mul-mod_left, div-div-eq-div-mul, pow-le-pow_right, mul-pos, mul_assoc,
  mul-le-mul_right, div-lt_iff_lt-mul, le-div_iff_mul-le,
}
use cookie_os.Base.{
  ℕ, suc, ◌+◌, ◌*◌, ◌/◌, ◌%◌, ◌^◌, ◌≤◌, ◌<◌, ◌≡◌, ◌∙◌, sym, ap, ◌&&◌, arith, ltb, leb, ◌==◌,
  if◌then◌else◌, ◌⊎◌, inl, inr,
}
use cookie_os.Physical.{size_of}

-- 1 where the block of `size` bytes at `base` holds the address.
abbrev pub inside : ℕ → ℕ → ℕ → ℕ
inside base size x = if leb base x && ltb x (base + size) then 1 else 0

-- 0 where the address is a multiple of the block size.
abbrev pub misaligned : ℕ → ℕ → ℕ
misaligned size addr = if addr % size == 0 then 0 else 1

pub misaligned_of : (s addr : ℕ) → misaligned s addr ≡ 0 → addr % s ≡ 0
misaligned_of s addr h = ground arith

pub misaligned-zero : (s addr : ℕ) → addr % s ≡ 0 → misaligned s addr ≡ 0
misaligned-zero s addr h = ground arith

pub size_of-suc : (min_size order : ℕ) → size_of min_size (suc order) ≡ size_of min_size order * 2
size_of-suc m o = ap (λ t. m * t) (pow-suc 2 o) ∙ sym (mul_assoc m (2 ^ o) 2)

pow-pos : (o : ℕ) → 0 < 2 ^ o
pow-pos o = pow-le-pow_right (omega arith) {i = 0} {j = o} (omega arith)

pub size_of-pos : (min_size order : ℕ) → 0 < min_size → 0 < size_of min_size order
size_of-pos m o h = mul-pos h (pow-pos o)

-- A multiple of `2 * s`, as the remainder and as the rounded quotient see it.
pub round_down : (s a : ℕ) → 0 < s → a % (s * 2) ≡ 0 → a / (s * 2) * (s * 2) ≡ a
round_down s a h e = omega (arith, div-add-mod' a (s * 2), e)

multiple_mod : (k s a : ℕ) → a ≡ k * s → a % s ≡ 0
multiple_mod k s a e = rw e (mul-mod_left k s)

pub halves-aligned : (s a : ℕ) → 0 < s → a % (s * 2) ≡ 0 → (a % s ≡ 0) × ((a + s) % s ≡ 0)
halves-aligned s a h e =
    let q = a / (s * 2) in
    let r = round_down s a h e in
    (
      multiple_mod (q * 2) s a (omega (arith, r)),
      multiple_mod (q * 2 + 1) s (a + s) (omega (arith, r)),
    )

pub round-aligned : (s a : ℕ) → 0 < s → (a / (s * 2) * (s * 2)) % (s * 2) ≡ 0
round-aligned s a h = mul-mod_left (a / (s * 2)) (s * 2)

even_odd : (k : ℕ) → (k ≡ k / 2 * 2) ⊎ (k ≡ k / 2 * 2 + 1)
even_odd k = ground arith

-- An aligned block is its own lower or upper buddy.
pub own_buddy :
    (s a : ℕ) → 0 < s → a % s ≡ 0 → let low = a / (s * 2) * (s * 2) in (a ≡ low) ⊎ (a ≡ low + s)
own_buddy s a h e = ground (arith, parity, low)
  where
    k : ℕ
    k = a / s

    whole : a ≡ k * s
    whole = omega (arith, div-add-mod' a s, e)

    half : a / (s * 2) ≡ k / 2
    half = sym (div-div-eq-div-mul a s 2)

    low : a / (s * 2) * (s * 2) ≡ k / 2 * 2 * s
    low = rw half (omega arith)

    parity : (a ≡ k / 2 * 2 * s) ⊎ (a ≡ k / 2 * 2 * s + s)
    parity = elim (even_odd k) [
      | inl even ↦ inl (whole ∙ ap (λ t. t * s) even)
      | inr odd ↦ inr (whole ∙ ap (λ t. t * s) odd ∙ (omega arith))
    ]

-- A block's bytes are those of its two halves.
pub inside-halves : (s a x : ℕ) → inside a (s * 2) x ≡ inside a s x + inside (a + s) s x
inside-halves s a x = ground arith

-- An address and its block of `u` bytes lie on the same side of a multiple of `u`.
pub same_side :
    (u k x : ℕ) → 0 < u → (x < k * u → x / u * u + u ≤ k * u) × (k * u ≤ x → k * u ≤ x / u * u)
same_side u k x h = (
  λ lt. omega (
    arith,
    mul-le-mul_right {m = x / u + 1} {n = k} u
        (omega (arith, (div-lt_iff_lt-mul {x = x} {y = k} h).1 lt)),
  ),
  λ le. mul-le-mul_right u ((le-div_iff_mul-le {x = k} {y = x} h).1 le),
)

pub inside_in : (base size x : ℕ) → base ≤ x → x < base + size → inside base size x ≡ 1
inside_in base size x lo hi = ground arith
