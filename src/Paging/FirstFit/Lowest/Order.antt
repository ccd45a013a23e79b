-- ===== src/Paging/FirstFit/Lowest/Order.antt =====
-- kernel/rust/src/memory/paging/allocators/firstfit.rs: the order in which `allocate` tries the offsets
-- of a range.
use mathlib.Core.Path.{subst}
use cookie_os.Base.{
  ℕ, zero, suc, ◌+◌, ◌≤◌, ◌<◌, ◌≡◌, ◌∙◌, refl, sym, ap, inl, inr, ◌==◌, Bool-cases, List, [], ◌∷◌,
  ◌++◌, All, arith, ==_iff,
}
use cookie_os.Paging.FirstFit.Search.{range, reverse}

pub All-range {ℓ} :
    (P : ℕ → Type ℓ) (lo n : ℕ) → All P (range lo n) → (x : ℕ) → lo ≤ x → x < lo + n → P x
unfolding range
All-range P lo zero h x a b = absurd (omega arith)
All-range P lo (suc n) h x a b = elim (Bool-cases (x == lo)) [
  | inl e ↦ subst P (sym ((==_iff x lo).0 e)) h.0
  | inr e ↦ All-range P (lo + 1) n h.1 x (ground arith) (omega arith)
]

pub range-All {ℓ} :
    (P : ℕ → Type ℓ) (lo n : ℕ) → ((x : ℕ) → lo ≤ x → x < lo + n → P x) → All P (range lo n)
unfolding range
range-All P lo zero h = tt
range-All P lo (suc n) h = (
  h lo (omega arith) (omega arith),
  range-All P (lo + 1) n (λ x a b. h x (omega arith) (omega arith)),
)

-- The offsets before one offset of an ascending search are the smaller ones.
pub range_before {ℓ} :
    (P : ℕ → Type ℓ) (lo n : ℕ) (before : List ℕ) (o : ℕ) (rest : List ℕ)
    → range lo n ≡ before ++ o ∷ rest
    → All P before
    → (lo ≤ o) × (o < lo + n) × ((x : ℕ) → lo ≤ x → x < o → P x)
unfolding range
range_before P lo zero [] o rest e h = cc
range_before P lo zero (b ∷ before) o rest e h = cc
range_before P lo (suc n) [] o rest e h =
    let f : lo ≡ o = cc in (omega arith, omega arith, λ x a b. absurd (omega arith))
range_before P lo (suc n) (b ∷ before) o rest e h =
    let f : lo ≡ b = cc in
    let (p, q, r) = range_before P (lo + 1) n before o rest (cc) h.1 in
    (
      omega arith,
      omega arith,
      λ x a l. elim (Bool-cases (x == lo)) [
        | inl g ↦ subst P (sym f ∙ sym ((==_iff x lo).0 g)) h.0
        | inr g ↦ r x (ground arith) l
      ],
    )

add_zero : (lo : ℕ) → lo + 0 ≡ lo
add_zero lo = omega arith

add_suc : (lo n : ℕ) → lo + 1 + n ≡ lo + suc n
add_suc lo n = omega arith

reverse-range : (lo n : ℕ) → reverse (range lo (suc n)) ≡ (lo + n) ∷ reverse (range lo n)
unfolding range reverse
reverse-range lo zero = rw (add_zero lo) refl
reverse-range lo (suc n) =
    rw (reverse-range (lo + 1) n)
      (ap (λ x. x ∷ (reverse (range (lo + 1) n) ++ lo ∷ [])) (add_suc lo n))

-- Those of a descending search are the larger ones.
pub reverse_before {ℓ} :
    (P : ℕ → Type ℓ) (lo n : ℕ) (before : List ℕ) (o : ℕ) (rest : List ℕ)
    → reverse (range lo n) ≡ before ++ o ∷ rest
    → All P before
    → (lo ≤ o) × (o < lo + n) × ((x : ℕ) → o < x → x < lo + n → P x)
unfolding range reverse
reverse_before P lo zero [] o rest e h = cc
reverse_before P lo zero (b ∷ before) o rest e h = cc
reverse_before P lo (suc n) [] o rest e h =
    let e' = sym (reverse-range lo n) ∙ e in
    let f : lo + n ≡ o = cc in (omega arith, omega arith, λ x a b. absurd (omega arith))
reverse_before P lo (suc n) (b ∷ before) o rest e h =
    let e' = sym (reverse-range lo n) ∙ e in
    let f : lo + n ≡ b = cc in
    let (p, q, r) = reverse_before P lo n before o rest (cc) h.1 in
    (
      p,
      omega arith,
      λ x a l. elim (Bool-cases (x == lo + n)) [
        | inl g ↦ subst P (sym f ∙ sym ((==_iff x (lo + n)).0 g)) h.0
        | inr g ↦ r x a (ground arith)
      ],
    )

pub All-reverse {ℓ} :
    (P : ℕ → Type ℓ) (lo n : ℕ) → All P (reverse (range lo n)) → (x : ℕ) → lo ≤ x → x < lo + n → P x
unfolding reverse range
All-reverse P lo zero h x a b = absurd (omega arith)
All-reverse P lo (suc n) h x a b =
    let k : All P ((lo + n) ∷ reverse (range lo n)) = subst (All P) (reverse-range lo n) h in
    elim (Bool-cases (x == lo + n)) [
      | inl e ↦ subst P (sym ((==_iff x (lo + n)).0 e)) k.0
      | inr e ↦ All-reverse P lo n k.1 x a (ground arith)
    ]

pub reverse-All {ℓ} :
    (P : ℕ → Type ℓ) (lo n : ℕ)
    → ((x : ℕ) → lo ≤ x → x < lo + n → P x)
    → All P (reverse (range lo n))
unfolding reverse range
reverse-All P lo zero h = tt
reverse-All P lo (suc n) h =
    subst (All P) (sym (reverse-range lo n))
      (h (lo + n) (omega arith) (omega arith), reverse-All P lo n (λ x a b. h x a (omega arith)))
