-- ===== src/Physical/Invariant.antt =====
-- physical.rs: which addresses the free blocks cover, when an allocator is well formed, and how
-- `split` and `merge` only rearrange the free blocks.
use mathlib.Core.Path.{subst}
use cookie_os.Base.{
  ℕ, suc, ◌+◌, ◌*◌, ◌/◌, ◌%◌, ◌<◌, ◌≡◌, ◌⊎◌, inl, inr, refl, ◌∙◌, sym, none, some, arith, ok,
  position,
}
use cookie_os.Physical.{BuddyAllocator, size_of, split, merge}
use cookie_os.Physical.Blocks.{
  inside, misaligned, misaligned_of, misaligned-zero, size_of-suc, size_of-pos, halves-aligned,
  round-aligned, inside-halves,
}
use cookie_os.Physical.Weights.{Balance, Balance-sym, take_block_lem, blocks_weight}
use cookie_os.Physical.SplitMerge.{split_lem, merge_lem}

module _ (max_order min_size : ℕ) where
  -- How many free blocks hold the address.
  abbrev pub cover : BuddyAllocator → ℕ → ℕ
  cover a x = blocks_weight (λ o addr. inside addr (size_of min_size o) x) max_order a.free_blocks

  -- The bytes in free blocks.
  abbrev pub free_bytes : BuddyAllocator → ℕ
  free_bytes a = blocks_weight (λ o _. size_of min_size o) max_order a.free_blocks

  -- The number of free blocks at an address that is no multiple of their size.
  abbrev pub crooked : BuddyAllocator → ℕ
  crooked a = blocks_weight (λ o addr. misaligned (size_of min_size o) addr) max_order a.free_blocks

  -- Every free block is aligned to its size, and the statistics count the free bytes.
  pub record WellFormed (a : BuddyAllocator) : Type 0 where
    pub aligned : crooked a ≡ 0
    pub counted : a.amount_free ≡ free_bytes a

  -- The free blocks hold the same bytes, cut up in another way.
  pub record Rearranged (a b : BuddyAllocator) : Type 0 where
    pub same_cover : (x : ℕ) → cover b x ≡ cover a x
    pub same_bytes : free_bytes b ≡ free_bytes a
    pub straight : crooked b ≡ crooked a
    pub free_same : b.amount_free ≡ a.amount_free
    pub allocated_same : b.amount_allocated ≡ a.amount_allocated

  pub Rearranged-refl : (a : BuddyAllocator) → Rearranged a a
  Rearranged-refl a = record {
    same_cover = λ x. refl;
    same_bytes = refl;
    straight = refl;
    free_same = refl;
    allocated_same = refl;
  }

  pub Rearranged-trans : {a b c : BuddyAllocator} → Rearranged a b → Rearranged b c → Rearranged a c
  Rearranged-trans p q = record {
    same_cover = λ x. q.same_cover x ∙ p.same_cover x;
    same_bytes = q.same_bytes ∙ p.same_bytes;
    straight = q.straight ∙ p.straight;
    free_same = q.free_same ∙ p.free_same;
    allocated_same = q.allocated_same ∙ p.allocated_same;
  }

  pub Rearranged-sym : {a b : BuddyAllocator} → Rearranged a b → Rearranged b a
  Rearranged-sym p = record {
    same_cover = λ x. sym (p.same_cover x);
    same_bytes = sym p.same_bytes;
    straight = sym p.straight;
    free_same = sym p.free_same;
    allocated_same = sym p.allocated_same;
  }

  pub Rearranged-WellFormed : {a b : BuddyAllocator} → Rearranged a b → WellFormed a → WellFormed b
  Rearranged-WellFormed r v = record {
    aligned = r.straight ∙ v.aligned;
    counted = omega (arith, r.free_same, v.counted, r.same_bytes);
  }

  module _ (pos : 0 < min_size) where
    abbrev size : ℕ → ℕ
    size = size_of min_size

    -- An aligned block and its two halves weigh the same under all three weights.
    module _ (order addr : ℕ) (aligned : addr % size (suc order) ≡ 0) where
      halves : (addr % size order ≡ 0) × ((addr + size order) % size order ≡ 0)
      halves =
          halves-aligned (size order) addr (size_of-pos min_size order pos)
            (subst (λ t. addr % t ≡ 0) (size_of-suc min_size order) aligned)

      cover-halves :
          (x : ℕ)
          → inside addr (size (suc order)) x
            ≡ inside addr (size order) x + inside (addr + size order) (size order) x
      cover-halves x = rw (size_of-suc min_size order) (inside-halves (size order) addr x)

      pub Rearranged-split :
          {a b : BuddyAllocator}
          → Balance max_order a b
              (λ w. w (suc order) addr)
              (λ w. w order addr + w order (addr + size order))
          → Rearranged a b
      Rearranged-split {a} {b} bal = record {
        same_cover = λ x. omega (arith, bal.balance (λ o y. inside y (size o) x), cover-halves x);
        same_bytes = omega (arith, bal.balance (λ o _. size o), size_of-suc min_size order);
        straight = omega (
          arith,
          bal.balance (λ o y. misaligned (size o) y),
          misaligned-zero (size (suc order)) addr aligned,
          misaligned-zero (size order) addr halves.0,
          misaligned-zero (size order) (addr + size order) halves.1,
        );
        free_same = bal.free_same;
        allocated_same = bal.allocated_same;
      }

    pub found-aligned :
        (a : BuddyAllocator) (order addr i : ℕ)
        → WellFormed a
        → order < max_order
        → position addr (a.free_blocks order) ≡ some i
        → addr % size order ≡ 0
    found-aligned a order addr i v lt found =
        let (b, _, bal) = take_block_lem max_order a order lt addr i found in
        misaligned_of (size order) addr
          (omega (arith, v.aligned, bal.balance (λ o y. misaligned (size o) y)))

    -- Splitting a free block of a well-formed allocator succeeds and rearranges it.
    pub split_ok :
        (a : BuddyAllocator) (order addr i : ℕ)
        → WellFormed a
        → suc order < max_order
        → position addr (a.free_blocks (suc order)) ≡ some i
        → (b : BuddyAllocator) × (split max_order min_size a (suc order) addr
            ≡ ok (b, (addr, addr + size order)))
          × ((i : ℕ) × (position addr (b.free_blocks order) ≡ some i))
          × Rearranged a b
    split_ok a order addr i v lt found =
        let aligned = found-aligned a (suc order) addr i v lt found in
        let (b, e, at, bal) = split_lem max_order min_size pos a order addr i lt aligned found in
        (b, e, at, Rearranged-split order addr aligned bal)

    -- So does a merge, where memory is short of one block of the maximal order.
    pub merge_ok :
        (a : BuddyAllocator) (order addr : ℕ)
        → order < max_order
        → free_bytes a < size max_order
        → let low = addr / (size order * 2) * (size order * 2) in
          (merge max_order min_size a order addr ≡ ok (a, none))
          ⊎ ((b : BuddyAllocator) × (suc order < max_order)
              × (merge max_order min_size a order addr ≡ ok (b, some low))
              × Rearranged a b)
    merge_ok a order addr lt room = elim (merge_lem max_order min_size pos a order addr lt room) [
      | inl e ↦ inl e
      | inr (b, below, e, bal) ↦
          inr (b, below, e, Rearranged-sym (Rearranged-split order _ low-aligned (Balance-sym bal)))
    ]
      where
        low-aligned : addr / (size order * 2) * (size order * 2) % size (suc order) ≡ 0
        low-aligned =
            rw (size_of-suc min_size order)
              (round-aligned (size order) addr (size_of-pos min_size order pos))
