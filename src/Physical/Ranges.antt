-- ===== src/Physical/Ranges.antt =====
-- physical.rs: the part of a range of addresses that blocks can cover, and what a range adds to the
-- free blocks.
use native.Mathlib.Nat.{div-add-mod', mod-lt, mul-mod_left}
use native.Mathlib.Decide.{dec_lt}
use cookie_os.Base.{
  ℕ, suc, ◌+◌, ◌-◌, ◌*◌, ◌/◌, ◌%◌, ◌^◌, ◌≤◌, ◌<◌, ◌≡◌, ◌⊎◌, refl, ◌∙◌, arith, ok, leb, ◌&&◌,
  if◌then◌else◌, ap, lt→ltb,
}
use cookie_os.Physical.{BuddyAllocator, size_of, add_block}
use cookie_os.Physical.Blocks.{
  inside, misaligned, misaligned-zero, size_of-pos, size_of-suc, same_side,
}
use cookie_os.Physical.Weights.{push_block_lem}
use cookie_os.Physical.SplitMerge.{block_size_lem}
use cookie_os.Physical.Invariant.{cover, free_bytes, crooked}

-- 1 where the pair of smallest blocks (of `u` bytes in all) around the address lies in the range.
abbrev pub usable : ℕ → ℕ → ℕ → ℕ → ℕ
usable u s e x = if leb s (x / u * u) && leb (x / u * u + u) e then 1 else 0

module _ (u : ℕ) (pos : 0 < u) (x : ℕ) where
  pub low_le : (x / u * u ≤ x) × (x < x / u * u + u)
  low_le = (omega (arith, div-add-mod' x u), omega (arith, div-add-mod' x u, mod-lt x pos))

  pub usable-split :
      (k s m e : ℕ) → m ≡ k * u → s ≤ m → m ≤ e → usable u s e x ≡ usable u s m x + usable u m e x
  usable-split k s m e mult h l = elim (dec_lt x (k * u)) [
    | yes below ↦ let near = (same_side u k x pos).0 below in ground (arith, low_le)
    | no above ↦ let far = (same_side u k x pos).1 (omega arith) in ground (arith, low_le)
  ]

  pub usable-block :
      (k l s e : ℕ) → s ≡ k * u → e ≡ l * u → s ≤ e → usable u s e x ≡ inside s (e - s) x
  usable-block k l s e hs he le = elim (dec_lt x (k * u)) [
    | yes below ↦ let near = (same_side u k x pos).0 below in ground (arith, low_le)
    | no above ↦
        let far = (same_side u k x pos).1 (omega arith) in
        elim (dec_lt x (l * u)) [
          | yes below ↦ let near = (same_side u l x pos).0 below in ground (arith, low_le)
          | no past ↦ let out = (same_side u l x pos).1 (omega arith) in ground (arith, low_le)
        ]
  ]

  pub usable-none :
      (k s e : ℕ) → k * u ≤ s → e ≤ k * u + u → (k * u < s) ⊎ (e < k * u + u) → usable u s e x ≡ 0
  usable-none k s e hs he cut = ground arith

module _ (max_order min_size : ℕ) (pos : 0 < min_size) where
  abbrev size : ℕ → ℕ
  size = size_of min_size

  abbrev unit : ℕ
  unit = size 1

  unit-pos : 0 < unit
  unit-pos = size_of-pos min_size 1 pos

  -- What adding the range [s, e) to `a` makes of it.
  pub record Added (a b : BuddyAllocator) (s e : ℕ) : Type 0 where
    pub covered :
        (x : ℕ) → cover max_order min_size b x ≡ cover max_order min_size a x + usable unit s e x
    pub straight : crooked max_order min_size b ≡ crooked max_order min_size a
    pub counted :
        free_bytes max_order min_size b + a.amount_free
        ≡ free_bytes max_order min_size a + b.amount_free
    pub allocated_same : b.amount_allocated ≡ a.amount_allocated
    pub kept : a.amount_free ≤ b.amount_free
    pub grown : b.amount_free ≤ a.amount_free + (e - s)

  -- A block of order `o + 1` ends at a multiple of the unit.
  pub multiple : (q o : ℕ) → q * (size o * 2) ≡ q * 2 ^ o * unit
  multiple q o = omega arith

  pub Added-trans :
      {a b c : BuddyAllocator} (k s m e : ℕ)
      → m ≡ k * unit
      → s ≤ m
      → m ≤ e
      → Added a b m e
      → Added b c s m
      → Added a c s e
  Added-trans k s m e mult h l p q = record {
    covered =
        λ x. omega (arith, p.covered x, q.covered x, usable-split unit unit-pos x k s m e mult h l);
    straight = q.straight ∙ p.straight;
    counted = omega (arith, p.counted, q.counted);
    allocated_same = q.allocated_same ∙ p.allocated_same;
    kept = omega (arith, p.kept, q.kept);
    grown = omega (arith, p.grown, q.grown);
  }

  -- A range inside one pair of smallest blocks that it does not fill adds nothing.
  pub Added-none :
      (a : BuddyAllocator) (k s e : ℕ)
      → k * unit ≤ s
      → e ≤ k * unit + unit
      → (k * unit < s) ⊎ (e < k * unit + unit)
      → Added a a s e
  Added-none a k s e hs he cut = record {
    covered = λ x. omega (arith, usable-none unit unit-pos x k s e hs he cut);
    straight = refl;
    counted = refl;
    allocated_same = refl;
    kept = omega arith;
    grown = omega arith;
  }

  -- A whole block.
  pub Added-block :
      (a : BuddyAllocator) (o q : ℕ)
      → suc o < max_order
      → a.amount_free + size o * 2 < 2 ^ 64
      → let s = q * (size o * 2) in
        (b : BuddyAllocator) × (add_block max_order min_size a (suc o) s ≡ ok b)
        × Added a b s (s + size o * 2)
  unfolding add_block
  Added-block a o q lt room =
      let (b, e, _, bal) = push_block_lem max_order a (suc o) lt s in
      let free : b.amount_free + size (suc o) < 2 ^ 64 = omega (arith, bal.free_same, width) in
      (
        record b { amount_free = b.amount_free + size (suc o) },
        rw (e, block_size_lem max_order min_size pos (suc o) (omega arith), lt→ltb _ _ free) refl,
        record {
          covered = λ x. omega (arith, bal.balance (λ o y. inside y (size o) x), filled x);
          straight = omega (
            arith,
            bal.balance (λ o y. misaligned (size o) y),
            misaligned-zero (size (suc o)) s aligned,
          );
          counted = omega (arith, bal.balance (λ o _. size o), bal.free_same);
          allocated_same = bal.allocated_same;
          kept = omega (arith, bal.free_same);
          grown = omega (arith, bal.free_same, width);
        },
      )
    where
      s : ℕ
      s = q * (size o * 2)

      width : size (suc o) ≡ size o * 2
      width = size_of-suc min_size o

      aligned : s % size (suc o) ≡ 0
      aligned = rw width (mul-mod_left q (size o * 2))

      filled : (x : ℕ) → usable unit s (s + size o * 2) x ≡ inside s (size (suc o)) x
      filled x =
          usable-block unit unit-pos x (q * 2 ^ o) ((q + 1) * 2 ^ o) s (s + size o * 2)
            (multiple q o) (omega arith) (omega arith)
          ∙ ap (λ t. inside s t x) (omega (arith, width))
