-- ===== src/Physical/SplitMerge.antt =====
-- physical.rs: `buddies`, `split` and `merge`.
use mathlib.Core.Path.{subst}
use native.Mathlib.Decide.{dec_lt}
use cookie_os.Base.{
  ℕ, suc, ◌+◌, ◌*◌, ◌/◌, ◌%◌, ◌≤◌, ◌<◌, ◌≡◌, ◌≢◌, ◌⊎◌, inl, inr, refl, ◌∙◌, List, [], none, some,
  arith, max, min, ok, position, swap_remove_two, get_elem?-position, position-append,
  position-append_left, sum_by-perm, le→leb, le→not-ltb, Option-cases, false, get_elem?, ap, ◌==◌,
  pos→not-==,
}
use cookie_os.Physical.{
  BuddyAllocator, size_of, buddies, set_free, take_both, split, merge, block_size, div_usize,
  merge_found,
}
use cookie_os.Physical.Blocks.{size_of-suc, size_of-pos, round_down}
use cookie_os.Physical.Weights.{
  Balance, Balance-trans, Balance-regroup, get_free_ok, take_block_lem, push_block_lem,
  blocks_weight, blocks_weight-update,
}

module _ (max_order min_size : ℕ) (pos : 0 < min_size) where
  abbrev size : ℕ → ℕ
  size = size_of min_size

  abbrev low_of : ℕ → ℕ → ℕ
  low_of order addr = addr / (size order * 2) * (size order * 2)

  pub block_size_lem :
      (order : ℕ) → order ≤ max_order → block_size max_order min_size order ≡ ok (size order)
  unfolding block_size
  block_size_lem order le = rw (le→leb _ _ le)

  double_pos : (order : ℕ) → (size order * 2 == 0) ≡ false
  double_pos order = pos→not-== _ (omega (arith, size_of-pos min_size order pos))

  pub buddies_lem :
      (order addr : ℕ)
      → order ≤ max_order
      → buddies max_order min_size order addr
        ≡ ok (low_of order addr, low_of order addr + size order)
  unfolding buddies
  buddies_lem order addr le = rw (block_size_lem order le, div_usize, double_pos order)

  -- A free aligned block of order `order + 1` turns into its two halves.
  pub split_lem :
      (a : BuddyAllocator) (order addr i : ℕ)
      → suc order < max_order
      → addr % size (suc order) ≡ 0
      → position addr (a.free_blocks (suc order)) ≡ some i
      → (b : BuddyAllocator) × (split max_order min_size a (suc order) addr
          ≡ ok (b, (addr, addr + size order)))
        × ((i : ℕ) × (position addr (b.free_blocks order) ≡ some i))
        × Balance max_order a b
            (λ w. w (suc order) addr)
            (λ w. w order addr + w order (addr + size order))
  unfolding split
  split_lem a order addr i lt aligned found =
      let (a1, e1, b1) = take_block_lem max_order a (suc order) lt addr i found in
      let (a2, e2, at2, b2) = push_block_lem max_order a1 order (omega arith) addr in
      let (a3, e3, at3, b3) = push_block_lem max_order a2 order (omega arith) (addr + size order) in
      (
        a3,
        rw (buddies_lem order addr (omega arith), low, e1, e2, e3),
        (
          (position-append addr (a1.free_blocks order) []).0,
          rw (at3, at2)
              (position-append_left addr _ _ _ (position-append addr (a1.free_blocks order) []).1),
        ),
        Balance-regroup (λ w. omega arith) (Balance-trans b1 (Balance-trans b2 b3)),
      )
    where
      low : low_of order addr ≡ addr
      low =
          round_down (size order) addr (size_of-pos min_size order pos)
            (subst (λ t. addr % t ≡ 0) (size_of-suc min_size order) aligned)

  take_both_sorted :
      (a : BuddyAllocator) (order i j p q x y : ℕ)
      → order < max_order
      → max i j ≡ p
      → min i j ≡ q
      → q < p
      → get_elem? (a.free_blocks order) p ≡ some x
      → get_elem? (a.free_blocks order) q ≡ some y
      → (b : BuddyAllocator) × (take_both max_order a order i j ≡ ok b)
        × Balance max_order a b (λ w. w order x + w order y) (λ w. 0)
  unfolding take_both
  take_both_sorted a order i j p q x y lt high low sorted at_p at_q =
      let (ys, zs, e, f, perm) = swap_remove_two (a.free_blocks order) p q sorted at_p at_q in
      (
        set_free a order zs,
        rw (get_free_ok max_order a order lt, high, low, e, f),
        record {
          balance = λ w. omega (
            arith,
            blocks_weight-update w max_order a.free_blocks order zs lt,
            sum_by-perm (w order) perm,
          );
          free_same = refl;
          allocated_same = refl;
        },
      )

  -- The blocks of one order at two places in its list.
  pub take_both_lem :
      (a : BuddyAllocator) (order lo hi i j : ℕ)
      → order < max_order
      → lo ≢ hi
      → position lo (a.free_blocks order) ≡ some i
      → position hi (a.free_blocks order) ≡ some j
      → (b : BuddyAllocator) × (take_both max_order a order i j ≡ ok b)
        × Balance max_order a b (λ w. w order lo + w order hi) (λ w. 0)
  take_both_lem a order lo hi i j lt ne at_i at_j = elim (dec_lt i j) [
    | yes p ↦
        let (b, e, bal) =
          take_both_sorted a order i j j i hi lo lt (omega arith) (omega arith) p elem_j elem_i in
        (b, e, Balance-regroup (λ w. omega arith) bal)
    | no p ↦
        take_both_sorted a order i j i j lo hi lt (omega arith) (omega arith) (omega (arith, apart))
          elem_i elem_j
  ]
    where
      elem_i : get_elem? (a.free_blocks order) i ≡ some lo
      elem_i = get_elem?-position lo (a.free_blocks order) i at_i

      elem_j : get_elem? (a.free_blocks order) j ≡ some hi
      elem_j = get_elem?-position hi (a.free_blocks order) j at_j

      apart : i ≢ j
      apart e = ne (ground (arith, elem_i, elem_j))

  -- What `merge` does with the block `addr` of order `order`: nothing, or it replaces the two free
  -- buddies by the block above. Memory short of one block of the maximal order leaves no third way.
  pub merge_lem :
      (a : BuddyAllocator) (order addr : ℕ)
      → order < max_order
      → blocks_weight (λ o _. size o) max_order a.free_blocks < size max_order
      → let low = low_of order addr in
        (merge max_order min_size a order addr ≡ ok (a, none))
        ⊎ ((b : BuddyAllocator) × (suc order < max_order)
            × (merge max_order min_size a order addr ≡ ok (b, some low))
            × Balance max_order a b
                (λ w. w order low + w order (low + size order))
                (λ w. w (suc order) low))
  unfolding merge merge_found
  merge_lem a order addr lt room = elim (Option-cases (position low blocks)) [
    | inl e ↦ inl (rw (start, e))
    | inr (i, e) ↦ elim (Option-cases (position (low + size order) blocks)) [
      | inl f ↦ inl (rw (start, e, f))
      | inr (j, f) ↦ inr (merge_both j e f)
    ]
  ]
    where
      low : ℕ
      low = low_of order addr

      blocks : List ℕ
      blocks = a.free_blocks order

      apart : low ≢ low + size order
      apart e = omega (arith, size_of-pos min_size order pos)

      start :
          merge max_order min_size a order addr
          ≡ merge_found max_order min_size a order low
              (position low blocks)
              (position (low + size order) blocks)
      start = rw (
        le→not-ltb max_order (suc order) lt,
        buddies_lem order addr (omega arith),
        get_free_ok max_order a order lt,
      )

      top : ¬ (suc order < max_order) → size max_order ≡ size (suc order)
      top p = ap size (omega arith)

      merge_both :
          {i : ℕ} (j : ℕ)
          → position low blocks ≡ some i
          → position (low + size order) blocks ≡ some j
          → (b : BuddyAllocator) × (suc order < max_order)
            × (merge max_order min_size a order addr ≡ ok (b, some low))
            × Balance max_order a b
                (λ w. w order low + w order (low + size order))
                (λ w. w (suc order) low)
      merge_both {i} j e f =
          let (b, e1, b1) = take_both_lem a order low (low + size order) i j lt apart e f in
          let below : suc order < max_order = elim (dec_lt (suc order) max_order) [
            | yes p ↦ p
            | no p ↦
                absurd
                  (omega (arith, b1.balance (λ o _. size o), top p, size_of-suc min_size order))
          ] in
          let (c, e2, _, b2) = push_block_lem max_order b (suc order) below low in
          (
            c,
            below,
            start ∙ rw (e, f, merge_found, e1, e2),
            Balance-regroup (λ w. omega arith) (Balance-trans b1 b2),
          )
