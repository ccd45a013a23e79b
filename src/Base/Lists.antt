-- ===== src/Base/Lists.antt =====
-- `Vec<T>` as a list: length and lookup over the native numbers, `position`, `swap_remove`,
-- predicates on all elements, and sums of a weight over a list.
use Prim.Native.Nat.{ℕ, zero, suc, ◌+◌, ◌<◌}
use mathlib.Core.Path.{◌≡◌, refl, ap, ap₂, ◌∙◌, subst}
use mathlib.Core.List.{List, [], ◌∷◌, ◌++◌, Permᴰ}
use mathlib.Core.List.Permᴰ
use mathlib.Core.Logic.{◌⊎◌, inl, inr}
use mathlib.Core.Option.{Option, none, some}
use mathlib.Core.Option
use native.Mathlib.Omega.{arith}
use cookie_os.Base.Tests.{◌==◌, if◌then◌else◌, Bool-cases}
use cookie_os.Base.Results.{Outcome, ok, panic, ◌>>=◌, >>=-eq-ok}

module _ {ℓ} {A : Type ℓ} where
  abbrev pub length : List A → ℕ
  length [] = 0
  length (x ∷ xs) = suc (length xs)

  abbrev pub get_elem? : List A → ℕ → Option A
  get_elem? [] i = none
  get_elem? (x ∷ xs) zero = some x
  get_elem? (x ∷ xs) (suc i) = get_elem? xs i

  pub length-append : (xs ys : List A) → length (xs ++ ys) ≡ length xs + length ys
  length-append [] ys = omega arith
  length-append (x ∷ xs) ys = omega (arith, length-append xs ys)

  abbrev pub All {κ} : (A → Type κ) → List A → Type κ
  All P [] = Unit
  All P (x ∷ xs) = P x × All P xs

  pub All-append {κ} : (P : A → Type κ) (xs ys : List A) → All P xs → All P ys → All P (xs ++ ys)
  All-append P [] ys h k = k
  All-append P (x ∷ xs) ys h k = (h.0, All-append P xs ys h.1 k)

  pub All-perm {κ} : (P : A → Type κ) {xs ys : List A} → Permᴰ xs ys → All P xs → All P ys
  All-perm P Permᴰ.nil h = h
  All-perm P (Permᴰ.cons e p) h = (subst P e h.0, All-perm P p h.1)
  All-perm P (Permᴰ.swap e f) h = (subst P f h.1.0, (subst P e h.0, h.1.1))
  All-perm P (Permᴰ.trans p q) h = All-perm P q (All-perm P p h)

  -- The sum of a weight over a list.
  abbrev pub sum_by : (A → ℕ) → List A → ℕ
  sum_by w [] = 0
  sum_by w (x ∷ xs) = w x + sum_by w xs

  pub sum_by-append : (w : A → ℕ) (xs ys : List A) → sum_by w (xs ++ ys) ≡ sum_by w xs + sum_by w ys
  sum_by-append w [] ys = omega arith
  sum_by-append w (x ∷ xs) ys = omega (arith, sum_by-append w xs ys)

  -- One element in the middle.
  pub sum_by-middle :
      (w : A → ℕ) (xs ys : List A) (a : A) → sum_by w (xs ++ a ∷ ys) ≡ w a + sum_by w (xs ++ ys)
  sum_by-middle w [] ys a = refl
  sum_by-middle w (x ∷ xs) ys a = omega (arith, sum_by-middle w xs ys a)

  pub All-middle {κ} :
      (P : A → Type κ) (xs ys : List A) {a : A} → All P (xs ++ a ∷ ys) → P a × All P (xs ++ ys)
  All-middle P [] ys h = h
  All-middle P (x ∷ xs) ys h = let (p, rest) = All-middle P xs ys h.1 in (p, (h.0, rest))

  pub sum_by-perm : (w : A → ℕ) {xs ys : List A} → Permᴰ xs ys → sum_by w xs ≡ sum_by w ys
  sum_by-perm w Permᴰ.nil = refl
  sum_by-perm w (Permᴰ.cons e p) = ap₂ ◌+◌ (ap w e) (sum_by-perm w p)
  sum_by-perm w (Permᴰ.swap {l = l} e f) = omega (arith, ap w e, ap w f)
  sum_by-perm w (Permᴰ.trans p q) = sum_by-perm w p ∙ sum_by-perm w q

  pub sum_by_ext : (v w : A → ℕ) (xs : List A) → All (λ x. v x ≡ w x) xs → sum_by v xs ≡ sum_by w xs
  sum_by_ext v w [] h = refl
  sum_by_ext v w (x ∷ xs) h = ap₂ ◌+◌ h.0 (sum_by_ext v w xs h.1)

module _ {ℓ} {A : Type ℓ} where
  last_of : A → List A → A
  last_of x [] = x
  last_of x (y ∷ ys) = last_of y ys

  init_of : A → List A → List A
  init_of x [] = []
  init_of x (y ∷ ys) = x ∷ init_of y ys

  fill_front : List A → List A
  unfolding last_of init_of
  fill_front [] = []
  fill_front (x ∷ xs) = last_of x xs ∷ init_of x xs

  -- `Vec::swap_remove`: the last element takes the place of the removed one.
  unfoldable pub swap_remove : List A → ℕ → Outcome (List A)
  unfolding fill_front
  swap_remove [] i = panic
  swap_remove (x ∷ xs) zero = ok (fill_front xs)
  swap_remove (x ∷ xs) (suc i) = do rest ← swap_remove xs i; ok (x ∷ rest)

  init_last-perm : (x : A) (xs : List A) → Permᴰ (x ∷ xs) (last_of x xs ∷ init_of x xs)
  unfolding last_of init_of
  init_last-perm x [] = Permᴰ.refl _
  init_last-perm x (y ∷ ys) =
      Permᴰ.trans (Permᴰ.cons refl (init_last-perm y ys)) (Permᴰ.swap refl refl)

  fill_front-perm : (xs : List A) → Permᴰ xs (fill_front xs)
  unfolding fill_front
  fill_front-perm [] = Permᴰ.nil
  fill_front-perm (x ∷ xs) = init_last-perm x xs

  -- A `swap_remove` in range succeeds and takes out that one element.
  pub swap_remove-perm :
      (xs : List A) (i : ℕ) {a : A}
      → get_elem? xs i ≡ some a
      → (ys : List A) × (swap_remove xs i ≡ ok ys) × Permᴰ xs (a ∷ ys)
  unfolding swap_remove
  swap_remove-perm [] i h = cc
  swap_remove-perm (x ∷ xs) zero h =
      (fill_front xs, refl, Permᴰ.cons (ground arith) (fill_front-perm xs))
  swap_remove-perm (x ∷ xs) (suc i) h =
      let (ys, e, p) = swap_remove-perm xs i h in
      (x ∷ ys, rw e, Permᴰ.trans (Permᴰ.cons refl p) (Permᴰ.swap refl refl))

  -- Of a list in two parts, the last element of the second takes the place between them.
  pub swap_remove-middle :
      (xs ys : List A) (a : A)
      → (zs : List A) × (swap_remove (xs ++ a ∷ ys) (length xs) ≡ ok (xs ++ zs)) × Permᴰ ys zs
  unfolding swap_remove
  swap_remove-middle [] ys a = (fill_front ys, refl, fill_front-perm ys)
  swap_remove-middle (x ∷ xs) ys a =
      let (zs, e, p) = swap_remove-middle xs ys a in (zs, rw (e) refl, p)

  pub get_elem?-middle : (xs ys : List A) (a : A) → get_elem? (xs ++ a ∷ ys) (length xs) ≡ some a
  get_elem?-middle [] ys a = refl
  get_elem?-middle (x ∷ xs) ys a = get_elem?-middle xs ys a

  -- Indices below the removed one keep their element.
  pub get_elem?-swap_remove :
      (xs : List A) (i j : ℕ) (ys : List A)
      → j < i
      → swap_remove xs i ≡ ok ys
      → get_elem? ys j ≡ get_elem? xs j
  unfolding swap_remove
  get_elem?-swap_remove [] i j ys h e = cc
  get_elem?-swap_remove (x ∷ xs) zero j ys h e = absurd (omega arith)
  get_elem?-swap_remove (x ∷ xs) (suc i) zero ys h e =
      let (zs, p, q) = >>=-eq-ok (swap_remove xs i) _ e in ground arith
  get_elem?-swap_remove (x ∷ xs) (suc i) (suc j) ys h e =
      let (zs, p, q) = >>=-eq-ok (swap_remove xs i) _ e in
      ground (arith, get_elem?-swap_remove xs i j zs (omega arith) p)

-- `iter().position(|x| *x == a)`
unfoldable pub position : ℕ → List ℕ → Option ℕ
position a [] = none
position a (x ∷ xs) = if x == a then some 0 else Option.map suc (position a xs)

pub get_elem?-position :
    (a : ℕ) (xs : List ℕ) (i : ℕ) → position a xs ≡ some i → get_elem? xs i ≡ some a
unfolding position
get_elem?-position a [] i h = cc
get_elem?-position a (x ∷ xs) zero h = ground (arith)
get_elem?-position a (x ∷ xs) (suc i) h = ground (arith, get_elem?-position a xs i)

-- Two removals, the higher index first.
pub swap_remove_two {ℓ} :
    {A : Type ℓ} (xs : List A) (i j : ℕ) {a b : A}
    → j < i
    → get_elem? xs i ≡ some a
    → get_elem? xs j ≡ some b
    → (ys : List A) × (zs : List A) × (swap_remove xs i ≡ ok ys)
      × (swap_remove ys j ≡ ok zs)
      × Permᴰ xs (a ∷ b ∷ zs)
swap_remove_two xs i j lt at_i at_j =
    let (ys, e, p) = swap_remove-perm xs i at_i in
    let (zs, f, q) = swap_remove-perm ys j (get_elem?-swap_remove xs i j ys lt e ∙ at_j) in
    (ys, zs, e, f, Permᴰ.trans p (Permᴰ.cons refl q))

pub position-append : (a : ℕ) (xs ys : List ℕ) → (i : ℕ) × (position a (xs ++ a ∷ ys) ≡ some i)
unfolding position
position-append a [] ys = (0, ground arith)
position-append a (x ∷ xs) ys = elim (Bool-cases (x == a)) [
  | inl e ↦ (0, rw e)
  | inr e ↦ let (i, f) = position-append a xs ys in (suc i, rw (e, f))
]

pub position-append_left :
    (a : ℕ) (xs ys : List ℕ) (i : ℕ) → position a xs ≡ some i → position a (xs ++ ys) ≡ some i
unfolding position
position-append_left a [] ys i h = cc
position-append_left a (x ∷ xs) ys zero h = ground arith
position-append_left a (x ∷ xs) ys (suc i) h = ground (arith, position-append_left a xs ys i)

pub List-cases {ℓ} :
    {A : Type ℓ} (xs : List A) → (xs ≡ []) ⊎ ((y : A) × (ys : List A) × (xs ≡ y ∷ ys))
List-cases [] = inl refl
List-cases (y ∷ ys) = inr (y, ys, refl)
