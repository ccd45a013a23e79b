-- ===== src/Physical/Release.antt =====
-- physical.rs: `drop` of an allocation, with its loop of merges.
use mathlib.Core.Path.{ap₂}
use cookie_os.Base.{
  ℕ, zero, suc, ◌+◌, ◌*◌, ◌/◌, ◌-◌, ◌%◌, ◌≤◌, ◌<◌, ◌≡◌, inl, inr, ◌∙◌, sym, arith, ok, le→not-ltb,
}
use cookie_os.Physical.{BuddyAllocator, PhysicalMemoryAllocation, size_of, merge_loop, drop}
use cookie_os.Physical.Blocks.{inside, misaligned, misaligned-zero}
use cookie_os.Physical.Weights.{push_block_lem}
use cookie_os.Physical.SplitMerge.{block_size_lem}
use cookie_os.Physical.Invariant.{
  cover, free_bytes, WellFormed, Rearranged, Rearranged-refl, Rearranged-trans, merge_ok,
}

module _ (max_order min_size : ℕ) (pos : 0 < min_size) where
  abbrev size : ℕ → ℕ
  size = size_of min_size

  -- The loop ends, and the merges only rearrange the free blocks.
  merge_loop_lem :
      (fuel : ℕ) (a : BuddyAllocator) (order addr : ℕ)
      → order < max_order
      → max_order - order < fuel
      → free_bytes max_order min_size a < size max_order
      → (b : BuddyAllocator) × (merge_loop max_order min_size fuel a order addr ≡ ok b)
        × Rearranged max_order min_size a b
  unfolding merge_loop
  merge_loop_lem zero a order addr lt enough room = absurd (omega arith)
  merge_loop_lem (suc fuel) a order addr lt enough room =
      elim (merge_ok max_order min_size pos a order addr lt room) [
        | inl e ↦ (a, rw e, Rearranged-refl max_order min_size a)
        | inr (b, below, e, re) ↦
            let (c, f, re') =
              merge_loop_lem fuel b (suc order) (addr / (size order * 2) * (size order * 2)) below
                (omega arith) (omega (arith, re.same_bytes)) in
            (c, rw e f, Rearranged-trans max_order min_size re re')
      ]

  -- An allocation that `palloc` could have made.
  pub record IsBlock (p : PhysicalMemoryAllocation) : Type 0 where
    pub order_lt : p.order < max_order
    pub size_eq : p.size ≡ size p.order
    pub addr_eq : p.addr ≡ p.block_addr
    pub addr_aligned : p.addr % p.size ≡ 0

  pub record Released (a b : BuddyAllocator) (p : PhysicalMemoryAllocation) : Type 0 where
    pub given :
        (x : ℕ)
        → cover max_order min_size b x ≡ cover max_order min_size a x + inside p.addr p.size x
    pub free_more : b.amount_free ≡ a.amount_free + p.size
    pub allocated_less : b.amount_allocated + p.size ≡ a.amount_allocated
    pub well : WellFormed max_order min_size b

  -- While a well-formed allocator manages less memory than one block of the maximal order, dropping a
  -- block that is counted as allocated never panics: its bytes become free, all other free bytes stay, and the statistics follow.
  pub drop_lem :
      (a : BuddyAllocator) (p : PhysicalMemoryAllocation)
      → WellFormed max_order min_size a
      → IsBlock p
      → p.size ≤ a.amount_allocated
      → a.amount_free + a.amount_allocated < size max_order
      → (b : BuddyAllocator) × (drop max_order min_size a p ≡ ok b) × Released a b p
  unfolding drop
  drop_lem a p v k enough room =
      let (c, e, _, bal) = push_block_lem max_order a p.order k.order_lt p.block_addr in
      let (d, f, re) =
        merge_loop_lem (suc max_order) c p.order p.block_addr k.order_lt (omega arith)
          (omega (arith, bal.balance (λ o _. size o), v.counted, k.size_eq)) in
      let b = record d {
        amount_allocated = d.amount_allocated - size p.order;
        amount_free = d.amount_free + size p.order;
      } in
      (
        b,
        rw (
          e,
          f,
          block_size_lem max_order min_size pos p.order (omega (arith, k.order_lt)),
          le→not-ltb d.amount_allocated (size p.order)
              (omega (arith, re.allocated_same, bal.allocated_same, k.size_eq)),
        ),
        record {
          given =
              λ x. omega (arith, bal.balance (λ o y. inside y (size o) x), re.same_cover x, same x);
          free_more = omega (arith, re.free_same, bal.free_same, k.size_eq);
          allocated_less = omega (arith, re.allocated_same, bal.allocated_same, k.size_eq);
          well = record {
            aligned = omega (
              arith,
              bal.balance (λ o y. misaligned (size o) y),
              re.straight,
              v.aligned,
              straight,
            );
            counted = omega (
              arith,
              bal.balance (λ o _. size o),
              re.same_bytes,
              re.free_same,
              bal.free_same,
              v.counted,
            );
          };
        },
      )
    where
      same : (x : ℕ) → inside p.block_addr (size p.order) x ≡ inside p.addr p.size x
      same x = ap₂ (λ u t. inside u t x) (sym k.addr_eq) (sym k.size_eq)

      straight : misaligned (size p.order) p.block_addr ≡ 0
      straight =
          ap₂ misaligned (sym k.size_eq) (sym k.addr_eq)
          ∙ misaligned-zero p.size p.addr k.addr_aligned
