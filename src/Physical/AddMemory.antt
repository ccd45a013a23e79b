-- ===== src/Physical/AddMemory.antt =====
-- physical.rs: `add_memory`, its loop over the orders and its recursion.
use mathlib.Core.Path.{subst, subst₂}
use native.Mathlib.Decide.{dec_lt}
use cookie_os.Base.{
  ℕ, zero, suc, ◌+◌, ◌-◌, ◌*◌, ◌/◌, ◌^◌, ◌≤◌, ◌<◌, ◌≡◌, inl, inr, refl, arith, ok, Bool, Outcome,
  ltb, ◌||◌, if◌then◌else◌, true, false, Bool-cases, le→not-ltb, ltb→lt, lt→ltb, ap,
}
use cookie_os.Physical.{
  BuddyAllocator, size_of, buddies, block_size, add_orders, add_memory_fuel, add_memory,
}
use cookie_os.Physical.Blocks.{size_of-pos, size_of-suc}
use cookie_os.Physical.SplitMerge.{block_size_lem, buddies_lem}
use cookie_os.Physical.Invariant.{cover, WellFormed}
use cookie_os.Physical.Ranges
use cookie_os.Physical.Ranges.{usable, low_le, multiple, Added-trans, Added-none, Added-block}

module _ (max_order min_size : ℕ) (pos : 0 < min_size) where
  abbrev size : ℕ → ℕ
  size = size_of min_size

  abbrev unit : ℕ
  unit = size 1

  add_orders-zero :
      (add : BuddyAllocator → ℕ → ℕ → Outcome BuddyAllocator) (b : BuddyAllocator) (s e : ℕ)
      → add_orders max_order min_size add 0 b s e ≡ ok b
  unfolding add_orders
  add_orders-zero add b s e = refl

  abbrev Added : BuddyAllocator → BuddyAllocator → ℕ → ℕ → Type 0
  Added = Ranges.Added max_order min_size pos

  abbrev Result : (ℕ → ℕ → Outcome BuddyAllocator) → BuddyAllocator → ℕ → ℕ → Type 0
  Result run a s e = (b : BuddyAllocator) × (run s e ≡ ok b) × Added a b s e

  -- The range is shorter than a block of the maximal order and ends more than one before 2^64, as it
  -- starts, and there is room in the count of free bytes.
  abbrev pub Room : BuddyAllocator → ℕ → ℕ → Type 0
  Room a s e =
      (e - s < size max_order)
      × (s + size max_order < 2 ^ 64)
      × (e + size max_order < 2 ^ 64)
      × (a.amount_free + (e - s) < 2 ^ 64)

  -- `add` adds every range shorter than `width`.
  abbrev Adds : (BuddyAllocator → ℕ → ℕ → Outcome BuddyAllocator) → ℕ → Type 0
  Adds add width =
      (a : BuddyAllocator) (s e : ℕ)
      → e - s < width
      → Room a s e
      → (b : BuddyAllocator) × (add a s e ≡ ok b) × Added a b s e

  size_of_mono : (o p : ℕ) → o ≤ p → size o ≤ size p
  size_of_mono o zero le =
      let e : o ≡ 0 = omega arith in let same : size o ≡ size 0 = ap size e in omega (arith, same)
  size_of_mono o (suc p) le = elim (dec_lt o (suc p)) [
    | yes lt ↦ omega (arith, size_of_mono o p (omega arith), size_of-suc min_size p)
    | no above ↦
        let e : o ≡ suc p = omega arith in
        let same : size o ≡ size (suc p) = ap size e in omega (arith, same)
  ]

  size_of-le : (o : ℕ) → o < max_order → size o * 2 ≤ size max_order
  size_of-le o lt = omega (arith, size_of-suc min_size o, size_of_mono (suc o) max_order lt)

  module _ (add : BuddyAllocator → ℕ → ℕ → Outcome BuddyAllocator) (width : ℕ)
      (adds : Adds add width) where
    -- The block of order `o + 1` around `s` is [start_of, end_of).
    abbrev start_of : ℕ → ℕ → ℕ
    start_of o s = s / (size o * 2) * (size o * 2)

    abbrev end_of : ℕ → ℕ → ℕ
    end_of o s = start_of o s + size o + size o

    around : (o s : ℕ) → (start_of o s ≤ s) × (s < end_of o s)
    around o s =
        let (low, high) = low_le (size o * 2) (omega (arith, size_of-pos min_size o pos)) s in
        (low, omega (arith, high))

    -- The end of the range that the block leaves out, and the range that remains.
    abbrev cut : ℕ → ℕ → ℕ → ℕ
    cut o s e = if ltb (end_of o s) e then end_of o s else e

    chop :
        (a : BuddyAllocator) (o s e : ℕ)
        → e - s ≤ width
        → Room a s e
        → (b : BuddyAllocator) × ((if ltb (end_of o s) e then add a (end_of o s) e else ok a)
            ≡ ok b)
          × (b.amount_free + (cut o s e - s) < 2 ^ 64)
          × ((c : BuddyAllocator) → Added b c s (cut o s e) → Added a c s e)
    chop a o s e short room = elim (Bool-cases (ltb (end_of o s) e)) [
      | inl more ↦
          let lt : end_of o s < e = ltb→lt _ _ more in
          let (b, r, added) =
            adds a (end_of o s) e (omega (arith, around o s)) (omega (arith, around o s)) in
          (
            b,
            rw more r,
            rw more (omega (arith, added.grown, room, around o s)),
            λ c rest.
                Added-trans max_order min_size pos ((s / (size o * 2) + 1) * 2 ^ o) s (end_of o s) e
                  (omega (arith, multiple max_order min_size pos (s / (size o * 2) + 1) o))
                  (omega (arith, around o s)) (omega arith) added (rw more at rest),
          )
      | inr less ↦ (a, rw less, rw less (omega (arith, room)), λ c rest. rw less at rest)
    ]

    abbrev is_partial : ℕ → ℕ → ℕ → Bool
    is_partial o s e = ltb (start_of o s) s || ltb (cut o s e) (end_of o s)

    cut-le : (o s e : ℕ) → (cut o s e ≤ e) × (cut o s e ≤ end_of o s)
    cut-le o s e = ground arith

    -- One order of the loop, given what the lower orders do with a part of the block.
    add_step :
        (o : ℕ) (a : BuddyAllocator) (s e : ℕ)
        → o < max_order
        → e - s ≤ width
        → Room a s e
        → (is_partial o s e ≡ true
            → (b : BuddyAllocator) → b.amount_free + (cut o s e - s) < 2 ^ 64
            → Result (add_orders max_order min_size add o b) b s (cut o s e))
        → Result (add_orders max_order min_size add (suc o) a) a s e
    unfolding add_orders
    add_step o a s e lt short room lower = elim (Bool-cases (is_partial o s e)) [
      | inl part ↦
          let (c, r, added) = lower part b chopped.2 in
          (c, rw (found, block, start, fits, chopped.1, part) r, whole c added)
      | inr full ↦
          let (d, r, added) =
            Added-block max_order min_size pos b o (s / (size o * 2)) (below full)
              (omega (arith, chopped.2, ends full)) in
          (
            d,
            rw (found, block, start, fits, chopped.1, full, r),
            whole _ (subst₂ (Added b d) (ends full).0 (ends full).1 added),
          )
    ]
      where
        ends :
            is_partial o s e ≡ false → (start_of o s ≡ s) × (start_of o s + size o * 2 ≡ cut o s e)
        ends full = ground (arith, around o s)

        below : is_partial o s e ≡ false → suc o < max_order
        below full = elim (dec_lt (suc o) max_order) [
          | yes p ↦ p
          | no p ↦
              let top : size max_order ≡ size (suc o) = ap size (omega arith) in
              absurd (omega (arith, ends full, cut-le o s e, top, size_of-suc min_size o, room))
        ]

        found : buddies max_order min_size o s ≡ ok (start_of o s, start_of o s + size o)
        found = buddies_lem max_order min_size pos o s (omega arith)

        block : block_size max_order min_size o ≡ ok (size o)
        block = block_size_lem max_order min_size pos o (omega arith)

        start : ltb s (start_of o s) ≡ false
        start = le→not-ltb _ _ (around o s).0

        fits : ltb (end_of o s) (2 ^ 64) ≡ true
        fits = lt→ltb _ _ (omega (arith, around o s, size_of-le o lt, room))

        chopped :
            (b : BuddyAllocator) × ((if ltb (end_of o s) e then add a (end_of o s) e else ok a)
              ≡ ok b)
            × (b.amount_free + (cut o s e - s) < 2 ^ 64)
            × ((c : BuddyAllocator) → Added b c s (cut o s e) → Added a c s e)
        chopped = chop a o s e short room

        b : BuddyAllocator
        b = chopped.0

        whole : (c : BuddyAllocator) → Added b c s (cut o s e) → Added a c s e
        whole = chopped.3

    -- The whole loop from order `o + 1` down.
    add_orders_lem :
        (o : ℕ) (a : BuddyAllocator) (s e : ℕ)
        → o < max_order
        → e - s ≤ width
        → Room a s e
        → Result (add_orders max_order min_size add (suc o) a) a s e
    add_orders_lem zero a s e lt short room =
        add_step zero a s e lt short room
          λ part b free. (b, add_orders-zero add b s (cut 0 s e), rest_none b part)
      where
        start : start_of 0 s ≡ s / (size 0 * 2) * 2 ^ 0 * unit
        start = multiple max_order min_size pos (s / (size 0 * 2)) 0

        rest_none : (b : BuddyAllocator) → is_partial 0 s e ≡ true → Added b b s (cut 0 s e)
        rest_none b part =
            let pair : unit ≡ size 0 * 2 = size_of-suc min_size 0 in
            Added-none max_order min_size pos b (s / (size 0 * 2) * 2 ^ 0) s (cut 0 s e)
              (omega (arith, start, around 0 s)) (omega (arith, start, cut-le 0 s e))
              (ground (arith, start))
    add_orders_lem (suc o) a s e lt short room = add_step (suc o) a s e lt short room λ part b free.
        add_orders_lem o b s (cut (suc o) s e) (omega arith) (omega (arith, cut-le (suc o) s e))
          (omega (arith, cut-le (suc o) s e, room, free))

  module _ (orders : 0 < max_order) where
    add_memory_fuel_lem : (fuel : ℕ) → Adds (add_memory_fuel max_order min_size fuel) fuel
    unfolding add_memory_fuel
    add_memory_fuel_lem zero a s e short room = absurd (omega arith)
    add_memory_fuel_lem (suc fuel) a s e short room =
        subst
          (λ n.
            Result (add_orders max_order min_size (add_memory_fuel max_order min_size fuel) n a) a s
              e)
          top
          (add_orders_lem (add_memory_fuel max_order min_size fuel) fuel (add_memory_fuel_lem fuel)
            (max_order - 1) a s e (omega arith) (omega arith) room)
      where
        top : suc (max_order - 1) ≡ max_order
        top = omega arith

    -- Adding a range shorter than one block of the maximal order to a well-formed allocator, for
    -- positive MAX_ORDER and MIN_SIZE, ends without a panic, where both ends of the range are more than
    -- such a block below 2^64 and the free bytes and the range add up to less than 2^64. An address
    -- becomes free, once more than it was, exactly if the pair of smallest blocks around it lies in
    -- the range; no other address changes, and the allocator stays well formed.
    pub add_memory_lem :
        (a : BuddyAllocator) (s e : ℕ)
        → WellFormed max_order min_size a
        → Room a s e
        → (b : BuddyAllocator) × (add_memory max_order min_size a s e ≡ ok b)
          × ((x : ℕ)
              → cover max_order min_size b x
                ≡ cover max_order min_size a x + usable (min_size * 2) s e x)
          × (b.amount_allocated ≡ a.amount_allocated)
          × (a.amount_free ≤ b.amount_free)
          × (b.amount_free ≤ a.amount_free + (e - s))
          × WellFormed max_order min_size b
    unfolding add_memory
    add_memory_lem a s e v room =
        let (b, r, added) = add_memory_fuel_lem (suc (e - s)) a s e (omega arith) room in
        (
          b,
          r,
          added.covered,
          added.allocated_same,
          added.kept,
          added.grown,
          record {
            aligned = omega (arith, added.straight, v.aligned);
            counted = omega (arith, added.counted, v.counted);
          },
        )
