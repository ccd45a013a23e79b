-- ===== src/Paging/FirstFit/Lowest/Allocating.antt =====
-- kernel/rust/src/memory/paging/allocators/firstfit.rs at the lowest level: what `allocate` and
-- `deallocate` do with the pages.
use mathlib.Core.Path.{ap₂}
use cookie_os.Base.{
  ℕ, zero, suc, ◌+◌, ◌*◌, ◌/◌, ◌%◌, ◌≤◌, ◌<◌, ◌≡◌, ◌⊎◌, ◌∙◌, refl, sym, ap, inl, inr, Bool, true,
  false, not, ◌&&◌, ◌||◌, Bool-cases, Option, none, some, List, [], ◌∷◌, Outcome, ok, panic, leb,
  ok_injective, lt→not-leb, arith,
}
use cookie_os.Paging.Strategy.{PageAllocationStrategy}
use cookie_os.Paging.Allocations.{
  PartialPageAllocation, start_addr, end_addr, size, last_end, sizes,
}
use cookie_os.Paging.Interface.{PageTable, PageTableLaws}
use cookie_os.Paging.FirstFit.{MlffAllocator, page_size, new}
use cookie_os.Paging.FirstFit.Bitmap.{zero_bits}
use cookie_os.Paging.FirstFit.Allocate.{whole_pages, rest_of}
use cookie_os.Paging.FirstFit.Search.{allocate, search_bounds, search_order, search_modes}
use cookie_os.Paging.FirstFit.Release.{deallocate}
use cookie_os.Paging.FirstFit.Lowest.{lowest, IsLowest, is_used, availability_of}
use cookie_os.Paging.FirstFit.Lowest.Runs.{pages_from, IsFreeRun, in_run, deallocate_run-IsLowest}
use cookie_os.Paging.FirstFit.Lowest.Placement.{
  run_allocation, TakesRun, IsTaken, try_run, search_modes-TakesFirst,
}
use cookie_os.Paging.FirstFit.Lowest.Bounds.{
  IsAdmitted, EndsWith, ComesBefore, search_bounds-IsAdmitted, All-search_order, search_order-All,
  search_order_before,
}

abbrev pub pages_for : ℕ → ℕ
pages_for size = (size + 4095) / 4096

some_injective {ℓ} : {A : Type ℓ} {a b : A} → some a ≡ some b → a ≡ b
some_injective h = cc

given_back :
    (used : ℕ → Bool) (start pages j : ℕ)
    → IsFreeRun used start pages
    → (not (in_run start pages j) && (in_run start pages j || used j)) ≡ used j
given_back used start pages j free = elim (Bool-cases (in_run start pages j)) [
  | inl e ↦ rw (e) (sym (free j (ground arith) (ground arith)))
  | inr e ↦ rw (e) refl
]

add_zero : (n : ℕ) → n + 0 ≡ n
add_zero n = omega arith

module _ (pt : PageTable) (laws : PageTableLaws pt) (heap : ℕ → ℕ) where
  -- `allocate`, up to the search.
  allocate-search_modes :
      (self : MlffAllocator (lowest pt heap)) (size lo hi : ℕ) (strategy : PageAllocationStrategy)
      (strategies : List PageAllocationStrategy)
      → IsLowest pt laws heap self
      → search_bounds 512 (pages_for size) strategy ≡ ok (lo, hi)
      → (mode : Bool) × (modes : List Bool) × (allocate
            (lowest pt heap)
            self
            size
            (strategy ∷ strategies)
          ≡ search_modes
              (lowest pt heap)
              (try_run pt laws heap (strategy ∷ strategies) strategy (pages_for size))
              self
              (search_order lo hi strategy.reverse_order)
              (mode ∷ modes))
  unfolding allocate whole_pages rest_of page_size
  allocate-search_modes self size lo hi strategy strategies inv e =
      let bounds : search_bounds pt.npages (pages_for size + 0) strategy ≡ ok (lo, hi) =
        ap (λ n. search_bounds n (pages_for size + 0) strategy) inv.npages_512
        ∙ ap (λ m. search_bounds 512 m strategy) (add_zero (pages_for size))
        ∙ e in
      elim (Bool-cases strategy.spread_mode) [
        | inl f ↦ (true, false ∷ [], rw (bounds, f) refl)
        | inr f ↦ (false, [], rw (bounds, f) refl)
      ]

  -- The call takes the first free run that the strategy admits, in the order of its search; or it fails,
  -- without a change, and every admitted run has a page in use.
  abbrev pub TakesFirstRun :
      MlffAllocator (lowest pt heap)
      → (pages : ℕ) → PageAllocationStrategy
      → Outcome (MlffAllocator (lowest pt heap) × Option PartialPageAllocation)
      → Type 0
  TakesFirstRun self pages strategy call =
      let used = is_used pt laws heap self in
      ((start : ℕ) × IsAdmitted strategy pages start
        × ((other : ℕ)
            → IsAdmitted strategy pages other
            → ComesBefore strategy.reverse_order other start
            → ¬ IsFreeRun used other pages)
        × TakesRun pt laws heap self start pages call)
      ⊎ ((call ≡ ok (self, none))
          × ((other : ℕ) → IsAdmitted strategy pages other → ¬ IsFreeRun used other pages))

  -- At the lowest level, for a request of at most 512 pages that fits below the strategy's limit, the
  -- call returns: it takes the first free run that the strategy admits, in the order of its search, with
  -- the bitmap kept in step; or it returns nothing, with the state unchanged, and every admitted run has
  -- a page in use.
  pub allocate-TakesFirstRun :
      (self : MlffAllocator (lowest pt heap)) (size : ℕ) (strategy : PageAllocationStrategy)
      (strategies : List PageAllocationStrategy)
      → IsLowest pt laws heap self
      → pages_for size ≤ 512
      → EndsWith strategy.max_page (pages_for size)
      → TakesFirstRun self
          (pages_for size)
          strategy
          (allocate (lowest pt heap) self size (strategy ∷ strategies))
  allocate-TakesFirstRun self size strategy strategies inv fits k =
      let pages = pages_for size in
      let (lo, hi, e, admitted) = search_bounds-IsAdmitted strategy pages fits k in
      let (mode, modes, f) = allocate-search_modes self size lo hi strategy strategies inv e in
      let inside =
        search_order-All (λ o. o + pages ≤ 512) lo hi strategy.reverse_order
          (λ x b. ((admitted x).0 b).0) in
      let taken =
        IsTaken pt laws heap (strategy ∷ strategies) strategy pages (is_used pt laws heap self) in
      elim (search_modes-TakesFirst pt laws heap (strategy ∷ strategies) strategy pages self
        (search_order lo hi strategy.reverse_order) mode modes inv inside) [
          | inl (before, start, rest, g, all, (free, (after, h, kept, now))) ↦
              let (b, earlier) =
                search_order_before taken lo hi strategy.reverse_order before start rest g all in
              inl (
                start,
                (admitted start).0 b,
                λ other a c. earlier other ((admitted other).1 a) c,
                (free, (after, f ∙ h, kept, now)),
              )
          | inr (h, all) ↦ inr (
            f ∙ h,
            λ other a.
                All-search_order taken lo hi strategy.reverse_order all other
                  ((admitted other).1 a),
          )
        ]

  -- At the lowest level, a request for more than 512 pages panics, whatever the state of the allocator.
  allocate_panics :
      (self : MlffAllocator (lowest pt heap)) (size : ℕ) (strategy : PageAllocationStrategy)
      (strategies : List PageAllocationStrategy)
      → pt.npages ≡ 512
      → 512 * 4096 < size
      → allocate (lowest pt heap) self size (strategy ∷ strategies) ≡ panic
  unfolding allocate whole_pages rest_of page_size search_bounds
  allocate_panics self size strategy strategies n h =
      let over : leb (pages_for size + 0) pt.npages ≡ false =
        ap (leb (pages_for size + 0)) n ∙ lt→not-leb (pages_for size + 0) 512 (omega arith) in
      rw (over) refl

  -- At the lowest level, when an allocation has succeeded, freeing it succeeds, keeps the invariant, and
  -- leaves exactly the pages in use that were in use before the allocation.
  pub deallocate-allocate :
      (self : MlffAllocator (lowest pt heap)) (size : ℕ) (strategy : PageAllocationStrategy)
      (strategies : List PageAllocationStrategy) (after : MlffAllocator (lowest pt heap))
      (allocation : PartialPageAllocation)
      → IsLowest pt laws heap self
      → pages_for size ≤ 512
      → EndsWith strategy.max_page (pages_for size)
      → allocate (lowest pt heap) self size (strategy ∷ strategies) ≡ ok (after, some allocation)
      → (freed : MlffAllocator (lowest pt heap)) × (deallocate (lowest pt heap) after allocation
          ≡ ok freed)
        × IsLowest pt laws heap freed
        × ((j : ℕ) → is_used pt laws heap freed j ≡ is_used pt laws heap self j)
  unfolding deallocate
  deallocate-allocate self size strategy strategies after allocation inv fits k e =
      elim (allocate-TakesFirstRun self size strategy strategies inv fits k) [
        | inl (start, (inside, from, to), earlier, (free, (taken, f, kept, now))) ↦
            let same = ok_injective (sym f ∙ e) in
            let one : run_allocation start (pages_for size) ≡ allocation =
              some_injective (ap (λ p. p.1) same) in
            let (freed, g, inv', then_) =
              deallocate_run-IsLowest pt laws heap taken start start (pages_for size) kept inside in
            (
              freed,
              ap₂ (deallocate (lowest pt heap)) (sym (ap (λ p. p.0) same)) (sym one) ∙ g,
              inv',
              λ j. then_ j ∙ rw (now j) (given_back _ start (pages_for size) j free),
            )
        | inr (f, all) ↦ absurd cc
      ]

  -- A new allocator keeps the invariant and has no page in use.
  pub new-IsLowest :
      (address : ℕ)
      → pt.npages ≡ 512
      → (self : MlffAllocator (lowest pt heap)) × (new (lowest pt heap) address ≡ ok self)
        × IsLowest pt laws heap self
        × ((j : ℕ) → is_used pt laws heap self j ≡ false)
  unfolding new
  new-IsLowest address n =
      let (table, e, unused) = laws.new_unused in
      (
        record {
          page_table = table;
          suballocators = λ idx. none;
          availability_bitmap = λ i. 0;
          address = address;
        },
        rw (e) refl,
        record {
          npages_512 = n;
          has_bytes = λ k. omega arith;
          no_tables = λ i. refl;
          in_step = λ i h. zero_bits (i % 4) (omega arith) ∙ sym (ap availability_of (unused i));
        },
        unused,
      )

end_of_run :
    (start idx before pages : ℕ)
    → before ≡ idx * 4096
    → last_end 4096 before (pages_from start idx pages) ≡ (idx + pages) * 4096
unfolding end_addr pages_from
end_of_run start idx before zero h = omega arith
end_of_run start idx before (suc pages) h =
    end_of_run start (idx + 1) ((idx + 1) * 4096) pages refl ∙ omega arith

size_of_run : (start idx pages : ℕ) → sizes 4096 (pages_from start idx pages) ≡ pages * 4096
unfolding size pages_from
size_of_run start idx zero = refl
size_of_run start idx (suc pages) = omega (arith, size_of_run start (idx + 1) pages)

-- An allocation of a run of at least one page starts at the address of its first page, ends its size
-- after that, and its size is that of its pages.
pub run_allocation_extent :
    (start count : ℕ)
    → let run = run_allocation start (suc count) in
      (start_addr run ≡ start * 4096)
      × (end_addr run ≡ start * 4096 + size run)
      × (size run ≡ suc count * 4096)
unfolding start_addr end_addr size pages_from
run_allocation_extent start count = (
  refl,
  omega (
    arith,
    end_of_run start (start + 1) ((start + 1) * 4096) count refl,
    size_of_run start (start + 1) count,
  ),
  size_of_run start start (suc count),
)
