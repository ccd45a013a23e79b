-- ===== src/Paging/FirstFit/Lowest/Bounds.antt =====
-- kernel/rust/src/memory/paging/allocators/firstfit.rs: the offsets that a strategy admits.
use mathlib.Core.Path.{subst}
use cookie_os.Base.{
  ℕ, ◌+◌, ◌-◌, ◌≤◌, ◌<◌, ◌≡◌, ◌↔◌, refl, ap, inl, inr, Bool, true, false, min, max, Option, none,
  some, Option-cases, List, ◌∷◌, ◌++◌, All, ok, arith, le→leb,
}
use cookie_os.Paging.Strategy.{PageAllocationStrategy}
use cookie_os.Paging.FirstFit.Search.{search_bounds, search_order}
use cookie_os.Paging.FirstFit.Lowest.Order.{
  All-range, range-All, range_before, All-reverse, reverse-All, reverse_before,
}

abbrev pub StartsFrom : Option ℕ → ℕ → Type 0
StartsFrom none start = Unit
StartsFrom (some x) start = x ≤ start

-- The last page of a run that ends before `end` is at most the given one.
abbrev pub EndsWith : Option ℕ → ℕ → Type 0
EndsWith none end = Unit
EndsWith (some x) end = end ≤ x + 1

-- A run inside the table and the limits of the strategy.
abbrev pub IsAdmitted : PageAllocationStrategy → (pages start : ℕ) → Type 0
IsAdmitted strategy pages start =
    (start + pages ≤ 512)
    × StartsFrom strategy.min_page start
    × EndsWith strategy.max_page (start + pages)

-- The order of the search.
abbrev pub ComesBefore : (reverse_order : Bool) → (a b : ℕ) → Type 0
ComesBefore true a b = b < a
ComesBefore false a b = a < b

max_zero : (n : ℕ) → max 0 n ≡ n
max_zero n = omega arith

module _ (strategy : PageAllocationStrategy) (pages : ℕ) where
  pub search_bounds-IsAdmitted :
      pages ≤ 512
      → EndsWith strategy.max_page pages
      → (lo : ℕ) × (hi : ℕ) × (search_bounds 512 pages strategy ≡ ok (lo, hi))
        × ((x : ℕ) → ((lo ≤ x) × (x < lo + (hi - lo))) ↔ IsAdmitted strategy pages x)
  unfolding search_bounds
  search_bounds-IsAdmitted h k = elim (Option-cases strategy.min_page) [
    | inl e ↦ elim (Option-cases strategy.max_page) [
      | inl f ↦
          (0, 512 - pages + 1, rw (le→leb pages 512 h, e, f) refl, λ x. rw (e, f) ground arith)
      | inr (m, f) ↦
          let fits : pages ≤ m + 1 = subst (λ o. EndsWith o pages) f k in
          (
            0,
            min (512 - pages + 1) (m + 1 - pages + 1),
            rw (le→leb pages 512 h, e, f, le→leb pages (m + 1) fits) refl,
            λ x. rw (e, f) (ground arith),
          )
    ]
    | inr (l, e) ↦ elim (Option-cases strategy.max_page) [
      | inl f ↦ (
        l,
        512 - pages + 1,
        rw (le→leb pages 512 h, e, f) (ap (λ n. ok (n, 512 - pages + 1)) (max_zero l)),
        λ x. rw (e, f) ground arith,
      )
      | inr (m, f) ↦
          let fits : pages ≤ m + 1 = subst (λ o. EndsWith o pages) f k in
          (
            l,
            min (512 - pages + 1) (m + 1 - pages + 1),
            rw (le→leb pages 512 h, e, f, le→leb pages (m + 1) fits)
                (ap (λ n. ok (n, min (512 - pages + 1) (m + 1 - pages + 1))) (max_zero l)),
            λ x. rw (e, f) (ground arith),
          )
    ]
  ]

module _ {ℓ} (P : ℕ → Type ℓ) (lo hi : ℕ) where
  pub All-search_order :
      (reverse_order : Bool)
      → All P (search_order lo hi reverse_order)
      → (x : ℕ) → (lo ≤ x) × (x < lo + (hi - lo))
      → P x
  unfolding search_order
  All-search_order true h x (a, b) = All-reverse P lo (hi - lo) h x a b
  All-search_order false h x (a, b) = All-range P lo (hi - lo) h x a b

  pub search_order-All :
      (reverse_order : Bool)
      → ((x : ℕ) → (lo ≤ x) × (x < lo + (hi - lo)) → P x)
      → All P (search_order lo hi reverse_order)
  unfolding search_order
  search_order-All true h = reverse-All P lo (hi - lo) (λ x a b. h x (a, b))
  search_order-All false h = range-All P lo (hi - lo) (λ x a b. h x (a, b))

  pub search_order_before :
      (reverse_order : Bool) (before : List ℕ) (o : ℕ) (rest : List ℕ)
      → search_order lo hi reverse_order ≡ before ++ o ∷ rest
      → All P before
      → ((lo ≤ o) × (o < lo + (hi - lo)))
        × ((x : ℕ) → (lo ≤ x) × (x < lo + (hi - lo)) → ComesBefore reverse_order x o → P x)
  unfolding search_order
  search_order_before true before o rest e h =
      let (a, b, k) = reverse_before P lo (hi - lo) before o rest e h in
      ((a, b), λ x (c, d) l. k x l d)
  search_order_before false before o rest e h =
      let (a, b, k) = range_before P lo (hi - lo) before o rest e h in
      ((a, b), λ x (c, d) l. k x c l)
