-- ===== src/Base/Sums.antt =====
-- Sums over the indices below a bound.
use Prim.Native.Nat.{ℕ, zero, suc, ◌+◌, ◌≤◌, ◌<◌}
use mathlib.Core.Path.{◌≡◌, refl}
use mathlib.Core.Logic.{inl, inr}
use native.Mathlib.Omega.{arith}
use cookie_os.Base.Tests.{◌==◌, Bool-cases, ==_iff, update}

pub sum_below : ℕ → (ℕ → ℕ) → ℕ
sum_below zero f = 0
sum_below (suc n) f = sum_below n f + f n

pub sum_below-zero : (n : ℕ) → sum_below n (λ _. 0) ≡ 0
unfolding sum_below
sum_below-zero zero = refl
sum_below-zero (suc n) = omega (arith, sum_below-zero n)

-- One term of a sum is at most the sum.
pub term-le-sum_below : (n : ℕ) (f : ℕ → ℕ) (i : ℕ) → i < n → f i ≤ sum_below n f
unfolding sum_below
term-le-sum_below zero f i h = absurd (omega arith)
term-le-sum_below (suc n) f i h = elim (Bool-cases (i == n)) [
  | inl e ↦ ground (arith, ==_iff i n)
  | inr e ↦ ground (arith, term-le-sum_below n f i)
]

-- Two different terms together are at most the sum.
pub two_terms-le-sum_below :
    (n : ℕ) (f : ℕ → ℕ) (i j : ℕ) → i < j → j < n → f i + f j ≤ sum_below n f
unfolding sum_below
two_terms-le-sum_below zero f i j h k = absurd (omega arith)
two_terms-le-sum_below (suc n) f i j h k = elim (Bool-cases (j == n)) [
  | inl e ↦ ground (arith, ==_iff j n, term-le-sum_below n f i)
  | inr e ↦ ground (arith, two_terms-le-sum_below n f i j)
]

module _ {ℓ} {A : Type ℓ} (weight : A → ℕ) where
  written_above :
      (n : ℕ) (cells : ℕ → A) (i : ℕ) (a : A)
      → n ≤ i
      → sum_below n (λ j. weight (update cells i a j)) ≡ sum_below n (λ j. weight (cells j))
  unfolding sum_below
  written_above zero cells i a h = refl
  written_above (suc n) cells i a h = ground (arith, written_above n cells i a)

  -- A write changes the sum by what it changes.
  pub sum_below-update :
      (n : ℕ) (cells : ℕ → A) (i : ℕ) (a : A)
      → i < n
      → sum_below n (λ j. weight (update cells i a j)) + weight (cells i)
        ≡ sum_below n (λ j. weight (cells j)) + weight a
  unfolding sum_below
  sum_below-update zero cells i a h = absurd (omega arith)
  sum_below-update (suc n) cells i a h = elim (Bool-cases (i == n)) [
    | inl e ↦ rw (e, (==_iff i n).0 e) (omega (arith, written_above n cells n a (omega arith)))
    | inr e ↦ ground (arith, sum_below-update n cells i a)
  ]
