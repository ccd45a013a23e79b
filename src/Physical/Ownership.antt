-- ===== src/Physical/Ownership.antt =====
-- physical.rs as its clients use it: any sequence of `palloc` calls and drops, as steps of a system
-- of the allocator and the allocations that are still held.
use mathlib.Core.Path.{subst, subst₂}
use cookie_os.Base.{
  ℕ, ◌+◌, ◌≤◌, ◌<◌, ◌≡◌, inl, inr, ap, List, [], ◌∷◌, ◌++◌, Option, some, none, arith, ok, All,
  All-middle, sum_by, sum_by-middle,
}
use cookie_os.Physical.{BuddyAllocator, PhysicalMemoryAllocation, size_of, palloc, drop}
use cookie_os.Physical.Blocks.{inside, inside_in}
use cookie_os.Physical.Invariant.{cover, WellFormed}
use cookie_os.Physical.Palloc.{Claimed, palloc_lem}
use cookie_os.Physical.Release.{IsBlock, Released, drop_lem}

pub record System : Type 0 where
  pub allocator : BuddyAllocator
  pub held : List PhysicalMemoryAllocation

-- How many held allocations contain the address.
abbrev pub held_cover : List PhysicalMemoryAllocation → ℕ → ℕ
held_cover ps x = sum_by (λ p. inside p.addr p.size x) ps

abbrev held_bytes : List PhysicalMemoryAllocation → ℕ
held_bytes ps = sum_by (λ p. p.size) ps

module _ (max_order min_size : ℕ) where
  pub data Step (s : System) : System → Type 0 where
    allocate :
        (n : ℕ) (b : BuddyAllocator) (p : PhysicalMemoryAllocation)
        → palloc max_order min_size s.allocator n ≡ ok (b, some p)
        → Step s (record { allocator = b; held = p ∷ s.held })
    refuse :
        (n : ℕ) (b : BuddyAllocator)
        → palloc max_order min_size s.allocator n ≡ ok (b, none)
        → Step s (record { allocator = b; held = s.held })
    release :
        (ps qs : List PhysicalMemoryAllocation) (p : PhysicalMemoryAllocation) (b : BuddyAllocator)
        → s.held ≡ ps ++ p ∷ qs
        → drop max_order min_size s.allocator p ≡ ok b
        → Step s (record { allocator = b; held = ps ++ qs })

  pub data Reach (a : BuddyAllocator) : System → Type 0 where
    start : Reach a (record { allocator = a; held = [] })
    next : {s t : System} → Reach a s → Step s t → Reach a t

  module _ (pos : 0 < min_size) (a : BuddyAllocator) where
    -- What holds of every system that `a` reaches.
    pub record Inv (s : System) : Type 0 where
      pub well : WellFormed max_order min_size s.allocator
      pub blocks : All (IsBlock max_order min_size pos) s.held
      pub counted : s.allocator.amount_allocated ≡ held_bytes s.held
      pub conserved :
          (x : ℕ)
          → cover max_order min_size s.allocator x + held_cover s.held x
            ≡ cover max_order min_size a x
      pub total : s.allocator.amount_free + s.allocator.amount_allocated ≡ a.amount_free

    module _ (room : a.amount_free < size_of min_size max_order) where
      allocate-Inv :
          (s : System) (b : BuddyAllocator) (p : PhysicalMemoryAllocation)
          → Claimed max_order min_size pos s.allocator b p
          → Inv s
          → Inv (record { allocator = b; held = p ∷ s.held })
      allocate-Inv s b p k inv = record {
        well = k.well;
        blocks = (
          record {
            order_lt = k.order_lt;
            size_eq = k.size_eq;
            addr_eq = k.addr_eq;
            addr_aligned = k.addr_aligned;
          },
          inv.blocks,
        );
        counted = omega (arith, k.allocated_more, inv.counted);
        conserved = λ x. omega (arith, k.taken x, inv.conserved x);
        total = omega (arith, k.free_less, k.allocated_more, inv.total);
      }

      release-Inv :
          (s : System) (ps qs : List PhysicalMemoryAllocation) (p : PhysicalMemoryAllocation)
          (b : BuddyAllocator)
          → s.held ≡ ps ++ p ∷ qs
          → Released max_order min_size pos s.allocator b p
          → Inv s
          → Inv (record { allocator = b; held = ps ++ qs })
      release-Inv s ps qs p b e k inv = record {
        well = k.well;
        blocks = (All-middle _ ps qs {a = p} (subst (All _) e inv.blocks)).1;
        counted = omega (
          arith,
          k.allocated_less,
          inv.counted,
          ap held_bytes e,
          sum_by-middle (λ q. q.size) ps qs p,
        );
        conserved = λ x. omega (
          arith,
          k.given x,
          inv.conserved x,
          ap (λ l. held_cover l x) e,
          sum_by-middle (λ q. inside q.addr q.size x) ps qs p,
        );
        total = omega (arith, k.free_more, k.allocated_less, inv.total);
      }

      -- Dropping a held allocation of a system that keeps the invariant.
      drop_held :
          (s : System) (ps qs : List PhysicalMemoryAllocation) (p : PhysicalMemoryAllocation)
          → s.held ≡ ps ++ p ∷ qs
          → Inv s
          → (b : BuddyAllocator) × (drop max_order min_size s.allocator p ≡ ok b)
            × Released max_order min_size pos s.allocator b p
      drop_held s ps qs p e inv =
          drop_lem max_order min_size pos s.allocator p inv.well
            (All-middle _ ps qs {a = p} (subst (All _) e inv.blocks)).0
            (omega (arith, inv.counted, ap held_bytes e, sum_by-middle (λ q. q.size) ps qs p))
            (omega (arith, inv.total))

      Step-Inv : {s t : System} → Step s t → Inv s → Inv t
      Step-Inv {s} (allocate n b p e) inv =
          elim (palloc_lem max_order min_size pos s.allocator n inv.well) [
            | inl (f, _) ↦ absurd (cc)
            | inr (c, q, f, k, _, _) ↦
                subst₂ (λ d r. Inv (record { allocator = d; held = r ∷ s.held })) (cc) (cc)
                  (allocate-Inv s c q k inv)
          ]
      Step-Inv {s} (refuse n b e) inv =
          elim (palloc_lem max_order min_size pos s.allocator n inv.well) [
            | inl (f, _) ↦ subst (λ d. Inv (record { allocator = d; held = s.held })) (cc) inv
            | inr (c, q, f, _, _, _) ↦ absurd (cc)
          ]
      Step-Inv {s} (release ps qs p b e f) inv =
          let (c, g, k) = drop_held s ps qs p e inv in
          subst (λ d. Inv (record { allocator = d; held = ps ++ qs })) (cc)
            (release-Inv s ps qs p c e k inv)

      Reach-Inv :
          {s : System}
          → WellFormed max_order min_size a
          → a.amount_allocated ≡ 0
          → Reach a s
          → Inv s
      Reach-Inv v fresh start = record {
        well = v;
        blocks = tt;
        counted = fresh;
        conserved = λ x. omega arith;
        total = omega arith;
      }
      Reach-Inv v fresh (next r st) = Step-Inv st (Reach-Inv v fresh r)

      -- Whatever sequence of calls ran, from a well-formed allocator with nothing allocated and less
      -- free memory than a block of the maximal order: the free blocks and the held allocations hold,
      -- together, exactly the addresses that were free at the start, and so many times.
      pub conservation :
          {s : System}
          → WellFormed max_order min_size a
          → a.amount_allocated ≡ 0
          → Reach a s
          → (x : ℕ)
          → cover max_order min_size s.allocator x + held_cover s.held x
            ≡ cover max_order min_size a x
      conservation v fresh r = (Reach-Inv v fresh r).conserved

      -- Whatever sequence of calls ran, from a well-formed allocator with nothing allocated, less free
      -- memory than a block of the maximal order and no address free twice: no two held allocations
      -- overlap, and none overlaps free memory.
      pub exclusive :
          {s : System}
          → WellFormed max_order min_size a
          → a.amount_allocated ≡ 0
          → ((x : ℕ) → cover max_order min_size a x ≤ 1)
          → Reach a s
          → (ps qs : List PhysicalMemoryAllocation) (p : PhysicalMemoryAllocation)
          → s.held ≡ ps ++ p ∷ qs
          → (x : ℕ) → p.addr ≤ x
          → x < p.addr + p.size
          → (held_cover (ps ++ qs) x ≡ 0) × (cover max_order min_size s.allocator x ≡ 0)
      exclusive v fresh once r ps qs p e x lo hi =
          let inv = Reach-Inv v fresh r in
          omega (
            arith,
            inv.conserved x,
            once x,
            ap (λ l. held_cover l x) e,
            sum_by-middle (λ q. inside q.addr q.size x) ps qs p,
            inside_in p.addr p.size x lo hi,
          )

      -- In every state reached from a well-formed allocator with nothing allocated and less free memory
      -- than a block of the maximal order, `palloc` returns, for every size.
      pub palloc_returns :
          {s : System}
          → WellFormed max_order min_size a
          → a.amount_allocated ≡ 0
          → Reach a s
          → (n : ℕ)
          → (b : BuddyAllocator) × (r : Option PhysicalMemoryAllocation) × (palloc max_order
                min_size s.allocator n
              ≡ ok (b, r))
      palloc_returns {s} v fresh r n =
          elim (palloc_lem max_order min_size pos s.allocator n (Reach-Inv v fresh r).well) [
            | inl (f, _) ↦ (s.allocator, none, f)
            | inr (c, q, f, _, _, _) ↦ (c, some q, f)
          ]

      -- In every state reached from a well-formed allocator with nothing allocated and less free memory
      -- than a block of the maximal order, the drop of a held allocation returns, and its bytes are
      -- free.
      pub drop_returns :
          {s : System}
          → WellFormed max_order min_size a
          → a.amount_allocated ≡ 0
          → Reach a s
          → (ps qs : List PhysicalMemoryAllocation) (p : PhysicalMemoryAllocation)
          → s.held ≡ ps ++ p ∷ qs
          → (b : BuddyAllocator) × (drop max_order min_size s.allocator p ≡ ok b)
            × Released max_order min_size pos s.allocator b p
      drop_returns {s} v fresh r ps qs p e = drop_held s ps qs p e (Reach-Inv v fresh r)
