-- ===== src/Physical/Palloc.antt =====
-- physical.rs: `req_block` and `palloc`.
use native.Mathlib.Nat.{mul-mod_right, add-zero}
use native.Mathlib.Decide.{dec_lt}
use cookie_os.Base.{
  ℕ, zero, suc, ◌+◌, ◌-◌, ◌%◌, ◌≤◌, ◌<◌, ◌≡◌, ◌⊎◌, inl, inr, refl, ◌∙◌, [], none, some, arith, ok,
  position, ◌^◌, ==_iff, leb, Bool-cases, leb→le, pos→not-==, not-leb→lt, position-append,
  le→not-ltb, List-cases, ap, ◌==◌, true,
}
use cookie_os.Physical.{
  BuddyAllocator, PhysicalMemoryAllocation, size_of, find_order, req_block_fuel, req_block,
  split_found, take_block, claim, palloc, block_size,
}
use cookie_os.Physical.Blocks.{inside, misaligned, size_of-pos}
use cookie_os.Physical.Weights.{Balance, take_block_lem}
use cookie_os.Physical.SplitMerge.{block_size_lem}
use cookie_os.Physical.Invariant.{
  cover, WellFormed, Rearranged, Rearranged-refl, Rearranged-trans, Rearranged-WellFormed,
  found-aligned, split_ok,
}

module _ (max_order min_size : ℕ) (pos : 0 < min_size) where
  abbrev size : ℕ → ℕ
  size = size_of min_size

  -- No free block has order `order` or more.
  abbrev pub NoneFrom : BuddyAllocator → ℕ → Type 0
  NoneFrom a order = (o : ℕ) → order ≤ o → o < max_order → a.free_blocks o ≡ []

  -- A block of the order is free in the rearranged allocator, at that address.
  abbrev Found : BuddyAllocator → ℕ → BuddyAllocator → ℕ → Type 0
  Found a order b addr =
      (order < max_order)
      × ((i : ℕ) × (position addr (b.free_blocks order) ≡ some i))
      × Rearranged max_order min_size a b

  req_block_lem :
      (fuel : ℕ) (a : BuddyAllocator) (order : ℕ)
      → WellFormed max_order min_size a
      → max_order - order < fuel
      → ((req_block_fuel max_order min_size fuel a order ≡ ok (a, none)) × NoneFrom a order)
        ⊎ ((b : BuddyAllocator) × (addr : ℕ) × (req_block_fuel max_order min_size fuel a order
              ≡ ok (b, some addr))
            × Found a order b addr)
  unfolding req_block_fuel
  req_block_lem zero a order v enough = absurd (omega arith)
  req_block_lem (suc fuel) a order v enough = elim (Bool-cases (leb max_order order)) [
    | inl top ↦ inl (rw top, λ o le lt. absurd (omega (arith, leb→le _ _ top)))
    | inr below ↦ elim (List-cases (a.free_blocks order)) [
      | inr (addr, rest, e) ↦ inr (
        a,
        addr,
        rw (below, e, req_block_fuel),
        (
          not-leb→lt _ _ below,
          ((position-append addr [] rest).0, rw e (position-append addr [] rest).1),
          Rearranged-refl _ _ a,
        ),
      )
      | inl e ↦ elim (req_block_lem fuel a (suc order) v (omega (arith, not-leb→lt _ _ below))) [
        | inl (r, empty) ↦ inl (rw (below, e, req_block_fuel, r), none_from e empty)
        | inr (b, addr, r, (lt, (i, at), re)) ↦
            let (c, s, at', re') =
              split_ok max_order min_size pos b order addr i
                (Rearranged-WellFormed max_order min_size re v) lt at in
            inr (
              c,
              addr,
              rw (below, e, req_block_fuel, r, split_found, s),
              (omega arith, at', Rearranged-trans max_order min_size re re'),
            )
      ]
    ]
  ]
    where
      none_from : a.free_blocks order ≡ [] → NoneFrom a (suc order) → NoneFrom a order
      none_from e empty o le lt = elim (dec_lt order o) [
        | yes p ↦ empty o p lt
        | no p ↦ ap a.free_blocks (omega arith) ∙ e
      ]

  -- The first order whose blocks are large enough, or none.
  find_order_lem :
      (alloc_size n order : ℕ)
      → order + n ≡ max_order
      → ((find_order max_order min_size alloc_size n order ≡ ok none)
          × ((o : ℕ) → order ≤ o → o < max_order → size o < alloc_size))
        ⊎ ((k : ℕ) × (find_order max_order min_size alloc_size n order ≡ ok (some k))
            × (k < max_order)
            × (alloc_size ≤ size k)
            × ((o : ℕ) → order ≤ o → o < k → size o < alloc_size))
  unfolding find_order
  find_order_lem alloc_size zero order e = inl (refl, λ o le lt. absurd (omega arith))
  find_order_lem alloc_size (suc n) order e = elim (Bool-cases (leb alloc_size (size order))) [
    | inl large ↦
        inr
          (order, rw (found, large), omega arith, leb→le _ _ large, λ o le lt. absurd (omega arith))
    | inr small ↦ elim (find_order_lem alloc_size n (order + 1) (omega arith)) [
      | inl (r, smaller) ↦
          inl (rw (found, small) r, from_next max_order (not-leb→lt _ _ small) smaller)
      | inr (k, r, lt, fits, smaller) ↦
          inr (k, rw (found, small) r, lt, fits, from_next k (not-leb→lt _ _ small) smaller)
    ]
  ]
    where
      found : block_size max_order min_size order ≡ ok (size order)
      found = block_size_lem max_order min_size pos order (omega arith)

      from_next :
          (k : ℕ)
          → size order < alloc_size
          → ((o : ℕ) → order + 1 ≤ o → o < k → size o < alloc_size)
          → (o : ℕ) → order ≤ o
          → o < k
          → size o < alloc_size
      from_next k here later o le lt = elim (dec_lt order o) [
        | yes p ↦ later o (omega arith) lt
        | no p ↦ let same : size o ≡ size order = ap size (omega arith) in omega arith
      ]

  -- What an allocation is, and what taking it out of `a` leaves in `b`.
  pub record Claimed (a b : BuddyAllocator) (p : PhysicalMemoryAllocation) : Type 0 where
    pub order_lt : p.order < max_order
    pub size_eq : p.size ≡ size p.order
    pub addr_eq : p.addr ≡ p.block_addr
    pub addr_aligned : p.addr % p.size ≡ 0
    pub taken :
        (x : ℕ)
        → cover max_order min_size b x + inside p.addr p.size x ≡ cover max_order min_size a x
    pub free_less : b.amount_free + p.size ≡ a.amount_free
    pub allocated_more : b.amount_allocated ≡ a.amount_allocated + p.size
    pub well : WellFormed max_order min_size b

  abbrev allocation : ℕ → ℕ → PhysicalMemoryAllocation
  allocation order addr = record {
    addr = addr;
    size = size order;
    order = order;
    block_addr = addr;
  }

  claim_lem :
      (a : BuddyAllocator) (order addr i : ℕ)
      → WellFormed max_order min_size a
      → order < max_order
      → position addr (a.free_blocks order) ≡ some i
      → (b : BuddyAllocator) × (claim max_order min_size a order (some addr)
          ≡ ok (b, some (allocation order addr)))
        × Claimed a b (allocation order addr)
  unfolding claim
  claim_lem a order addr i v lt at = (
    b,
    rw (
      block_size_lem max_order min_size pos order (omega arith),
      le→not-ltb _ _ enough,
      taken.1,
      pos→not-== _ (size_of-pos min_size order pos),
      mod_zero,
    ),
    record {
      order_lt = lt;
      size_eq = refl;
      addr_eq = refl;
      addr_aligned = found-aligned max_order min_size pos a order addr i v lt at;
      taken = λ x. bal.balance (λ o y. inside y (size o) x) ∙ add-zero _;
      free_less = omega (arith, bal.free_same, enough);
      allocated_more = bal.allocated_same;
      well = record {
        aligned = omega (arith, v.aligned, bal.balance (λ o y. misaligned (size o) y));
        counted = omega (arith, bal.free_same, v.counted, bal.balance (λ o _. size o), enough);
      };
    },
  )
    where
      counted : BuddyAllocator
      counted = record a {
        amount_free = a.amount_free - size order;
        amount_allocated = a.amount_allocated + size order;
      }

      taken :
          (b : BuddyAllocator) × (take_block max_order counted order addr ≡ ok b)
          × Balance max_order counted b (λ w. w order addr) (λ w. 0)
      taken = take_block_lem max_order counted order lt addr i at

      b : BuddyAllocator
      b = taken.0

      bal : Balance max_order counted b (λ w. w order addr) (λ w. 0)
      bal = taken.2

      enough : size order ≤ a.amount_free
      enough = omega (arith, v.counted, bal.balance (λ o _. size o))

      mod_zero : (size order % min_size == 0) ≡ true
      mod_zero = (==_iff _ _).1 (mul-mod_right min_size (2 ^ order))

  -- The block's bytes leave the free blocks of a rearranged allocator as they leave the original's.
  Claimed-Rearranged :
      {a b c : BuddyAllocator} {p : PhysicalMemoryAllocation}
      → Rearranged max_order min_size a b
      → Claimed b c p
      → Claimed a c p
  Claimed-Rearranged r k = record {
    order_lt = k.order_lt;
    size_eq = k.size_eq;
    addr_eq = k.addr_eq;
    addr_aligned = k.addr_aligned;
    taken = λ x. k.taken x ∙ r.same_cover x;
    free_less = k.free_less ∙ r.free_same;
    allocated_more = omega (arith, k.allocated_more, r.allocated_same);
    well = k.well;
  }

  -- `palloc` never panics on a well-formed allocator, for a positive MIN_SIZE. Either it changes nothing, and no order large
  -- enough has a free block at or above it; or it returns a block of the smallest order that
  -- fits, aligned to its size, whose bytes leave the free memory while all other free bytes stay.
  pub palloc_lem :
      (a : BuddyAllocator) (n : ℕ)
      → WellFormed max_order min_size a
      → ((palloc max_order min_size a n ≡ ok (a, none))
          × ((o : ℕ) → o < max_order → n ≤ size o → a.free_blocks o ≡ []))
        ⊎ ((b : BuddyAllocator) × (p : PhysicalMemoryAllocation) × (palloc max_order min_size a n
              ≡ ok (b, some p))
            × Claimed a b p
            × (n ≤ p.size)
            × ((o : ℕ) → o < p.order → size o < n))
  unfolding palloc req_block claim
  palloc_lem a n v = elim (find_order_lem n max_order 0 (omega arith)) [
    | inl (e, small) ↦ inl (rw e, λ o lt fits. absurd (omega (arith, small o (omega arith) lt)))
    | inr (k, e, lt, fits, smaller) ↦ elim (req_block_lem (suc max_order) a k v (omega arith)) [
      | inl (r, empty) ↦ inl (
        rw (e, req_block, r, claim),
        λ o lt' fits'. elim (dec_lt o k) [
          | yes p ↦ absurd (omega (arith, smaller o (omega arith) p))
          | no p ↦ empty o (omega arith) lt'
        ],
      )
      | inr (b, addr, r, (below, (i, at), re)) ↦
          let (c, f, claimed) =
            claim_lem b k addr i (Rearranged-WellFormed max_order min_size re v) below at in
          inr (
            c,
            allocation k addr,
            rw (e, req_block, r, f),
            Claimed-Rearranged re claimed,
            fits,
            λ o lt'. smaller o (omega arith) lt',
          )
    ]
  ]
