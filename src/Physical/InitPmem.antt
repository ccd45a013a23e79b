-- ===== src/Physical/InitPmem.antt =====
-- physical.rs: `init_pmem` over the memory map, and the blocks that the free lists have no room for.
use cookie_os.Base.{
  ℕ, ◌+◌, ◌-◌, ◌*◌, ◌^◌, ◌≤◌, ◌<◌, ◌≡◌, Bool, true, false, inl, inr, refl, ◌∙◌, List, [], ◌∷◌,
  arith, ok, All, sum_by, max, leb, ltb, if◌then◌else◌, Bool-cases, not-ltb→le, lt→ltb, ltb→lt,
  leb→le, not-leb→lt, ap, le→not-ltb,
}
use cookie_os.Physical.{
  BuddyAllocator, MemoryMapEntry, is_for_general_use, size_of, init_range, general_entry,
  init_entry, init_entries, init_pmem, sub_usize,
}
use cookie_os.Physical.Ranges.{usable}
use cookie_os.Physical.AddMemory.{Room, add_memory_lem}
use cookie_os.Physical.Invariant.{cover, WellFormed}

module _ (max_order min_size : ℕ) (pos : 0 < min_size) (orders : 0 < max_order) (kend : ℕ) where
  -- The memory that an entry contributes at an address: the whole pairs of smallest blocks of a
  -- general-use range, above the end of the kernel.
  abbrev pub granted : ℕ → MemoryMapEntry → ℕ
  granted x entry =
      if is_for_general_use entry
      then usable (min_size * 2) (max kend entry.base_addr) (entry.base_addr + entry.length) x
      else 0

  -- The entry is shorter than a block of the maximal order and ends more than one below 2^64.
  abbrev pub Fits : MemoryMapEntry → Type 0
  Fits entry =
      (entry.base_addr + entry.length + size_of min_size max_order < 2 ^ 64)
      × (entry.length < size_of min_size max_order)

  -- What an entry adds to `total_general_use`.
  abbrev pub general_use : MemoryMapEntry → ℕ
  general_use entry = if is_for_general_use entry then entry.length else 0

  abbrev Grown : BuddyAllocator → BuddyAllocator → (ℕ → ℕ) → ℕ → Type 0
  Grown a b extra most =
      ((x : ℕ) → cover max_order min_size b x ≡ cover max_order min_size a x + extra x)
      × (b.amount_allocated ≡ a.amount_allocated)
      × (a.amount_free ≤ b.amount_free)
      × (b.amount_free ≤ a.amount_free + most)
      × WellFormed max_order min_size b

  higher : (s : ℕ) → kend ≤ s → max kend s ≡ s
  higher s h = omega arith

  lower : (s : ℕ) → s < kend → max kend s ≡ kend
  lower s h = omega arith

  sub_usize_ok : {m n : ℕ} → n ≤ m → sub_usize m n ≡ ok (m - n)
  unfolding sub_usize
  sub_usize_ok {m} {n} h = rw (le→not-ltb m n h) refl

  init_range_lem :
      (a : BuddyAllocator) (s e : ℕ)
      → WellFormed max_order min_size a
      → Room max_order min_size pos a s e
      → (b : BuddyAllocator) × (init_range max_order min_size kend a s e ≡ ok b)
        × Grown a b (λ x. usable (min_size * 2) (max kend s) e x) (e - s)
  unfolding init_range
  init_range_lem a s e v room = elim (Bool-cases (leb kend s)) [
    | inl after ↦
        let (b, r, c, al, f, f', w) = add_memory_lem max_order min_size pos orders a s e v room in
        (b, rw after r, (λ x. rw (higher s (leb→le _ _ after)) (c x), al, f, f', w))
    | inr before ↦ elim (Bool-cases (ltb kend e)) [
      | inl meets ↦
          let (b, r, c, al, f, f', w) =
            add_memory_lem max_order min_size pos orders a kend e v
              (omega (arith, not-leb→lt _ _ before, ltb→lt _ _ meets, room)) in
          (
            b,
            rw (before, meets) r,
            (
              λ x. rw (lower s (not-leb→lt _ _ before)) (c x),
              al,
              f,
              omega (arith, f', not-leb→lt _ _ before),
              w,
            ),
          )
      | inr below ↦ (
        a,
        rw (before, below),
        (nothing (not-ltb→le _ _ below), refl, omega arith, omega arith, v),
      )
    ]
  ]
    where
      nothing :
          e ≤ kend
          → (x : ℕ)
          → cover max_order min_size a x
            ≡ cover max_order min_size a x + usable (min_size * 2) (max kend s) e x
      nothing le x =
          let high : kend ≤ max kend s = omega arith in
          let empty : usable (min_size * 2) (max kend s) e x ≡ 0 = ground arith in omega arith

  -- Both branches of a turn, over the value of the test.
  init_if :
      (a : BuddyAllocator) (total : ℕ) (entry : MemoryMapEntry) (general : Bool)
      → WellFormed max_order min_size a
      → Fits entry
      → total + (if general then entry.length else 0) < 2 ^ 64
      → a.amount_free + (if general then entry.length else 0) < 2 ^ 64
      → (b : BuddyAllocator) × ((if general
            then general_entry max_order min_size kend a total entry
            else ok (a, total))
          ≡ ok (b, total + (if general then entry.length else 0)))
        × Grown a b
            (λ x.
              if general
              then usable
                  (min_size * 2)
                  (max kend entry.base_addr)
                  (entry.base_addr + entry.length)
                  x
              else 0)
            (if general then entry.length else 0)
  unfolding general_entry
  init_if a total entry true v fits small free =
      let (b, r, (c, al, f, f', w)) =
        init_range_lem a entry.base_addr (entry.base_addr + entry.length) v
          (omega (arith, fits.0, fits.1, free)) in
      (
        b,
        rw
            (
              lt→ltb _ _ small,
              lt→ltb (entry.base_addr + entry.length) (2 ^ 64) (omega (arith, fits.0)),
              r,
            )
            refl,
        (c, al, f, omega (arith, f'), w),
      )
  init_if a total entry false v fits small free =
      (a, ap (λ t. ok (a, t)) same, (λ x. omega arith, refl, omega arith, omega arith, v))
    where
      same : total ≡ total + 0
      same = omega arith

  init_entry_lem :
      (a : BuddyAllocator) (total : ℕ) (entry : MemoryMapEntry)
      → WellFormed max_order min_size a
      → Fits entry
      → total + general_use entry < 2 ^ 64
      → a.amount_free + general_use entry < 2 ^ 64
      → (b : BuddyAllocator) × (init_entry max_order min_size kend a total entry
          ≡ ok (b, total + general_use entry))
        × Grown a b (λ x. granted x entry) (general_use entry)
  unfolding init_entry
  init_entry_lem a total entry v fits small free =
      init_if a total entry (is_for_general_use entry) v fits small free

  init_entries_lem :
      (a : BuddyAllocator) (total : ℕ) (mmap : List MemoryMapEntry)
      → WellFormed max_order min_size a
      → All Fits mmap
      → total + sum_by general_use mmap < 2 ^ 64
      → a.amount_free + sum_by general_use mmap < 2 ^ 64
      → (b : BuddyAllocator) × (init_entries max_order min_size kend a total mmap
          ≡ ok (b, total + sum_by general_use mmap))
        × Grown a b (λ x. sum_by (granted x) mmap) (sum_by general_use mmap)
  unfolding init_entries
  init_entries_lem a total [] v fits small free =
      let same : total ≡ total + 0 = omega arith in
      (a, ap (λ t. ok (a, t)) same, (λ x. omega arith, refl, omega arith, omega arith, v))
  init_entries_lem a total (entry ∷ mmap) v fits small free =
      let (b, r, (c, al, f, f', w)) =
        init_entry_lem a total entry v fits.0 (omega (arith, small)) (omega (arith, free)) in
      let (d, r', (c', al', h, h', w')) =
        init_entries_lem b (total + general_use entry) mmap w fits.1 (omega (arith, small))
          (omega (arith, free, f')) in
      let same : total + general_use entry + sum_by general_use mmap
          ≡ total + sum_by general_use (entry ∷ mmap) =
        omega arith in
      (
        d,
        rw (r, r') (ap (λ t. ok (d, t)) same),
        (λ x. omega (arith, c x, c' x), al' ∙ al, omega (arith, f, h), omega (arith, f', h'), w'),
      )

  -- `init_pmem` on a well-formed allocator and a memory map whose entries are shorter than a block of
  -- the maximal order and end more than one below 2^64, for positive MAX_ORDER and MIN_SIZE, where the
  -- lengths of the general-use entries and the bytes that are free already add up to less than 2^64:
  -- no panic, no overflow included, and each address becomes free as often as the general-use entries
  -- above the kernel's end grant it, whole pairs of smallest blocks each.
  pub init_pmem_lem :
      (a : BuddyAllocator) (mmap : List MemoryMapEntry)
      → WellFormed max_order min_size a
      → All Fits mmap
      → a.amount_free + sum_by general_use mmap < 2 ^ 64
      → (b : BuddyAllocator) × (init_pmem max_order min_size kend a mmap ≡ ok b)
        × ((x : ℕ)
            → cover max_order min_size b x ≡ cover max_order min_size a x + sum_by (granted x) mmap)
        × (b.amount_allocated ≡ a.amount_allocated)
        × WellFormed max_order min_size b
  unfolding init_pmem
  init_pmem_lem a mmap v fits free =
      let (b, r, (c, al, f, f', w)) = init_entries_lem a 0 mmap v fits (omega (arith, free)) free in
      (b, rw (r, sub_usize_ok f) refl, c, al, w)
