-- ===== src/Physical/Weights.antt =====
-- physical.rs: the free lists of an allocator summed up by a weight on blocks (an order and an
-- address), and what each access to a free list does to every such sum.
use mathlib.Core.Path.{ap₂}
use cookie_os.Base.{
  ℕ, zero, suc, ◌+◌, ◌≤◌, ◌<◌, ◌≡◌, refl, sym, ◌∙◌, List, [], ◌∷◌, ◌++◌, some, arith, update, ok,
  position, swap_remove-perm, get_elem?-position, sum_by, sum_by-perm, sum_by-append, lt→ltb,
}
use cookie_os.Physical.{BuddyAllocator, get_free, set_free, take_block, push_block}

-- The sum of `f 0` to `f (n - 1)`.
unfoldable pub total : ℕ → (ℕ → ℕ) → ℕ
total zero f = 0
total (suc n) f = total n f + f n

pub total_ext : (n : ℕ) (f g : ℕ → ℕ) → ((i : ℕ) → i < n → f i ≡ g i) → total n f ≡ total n g
unfolding total
total_ext zero f g h = refl
total_ext (suc n) f g h = ap₂ ◌+◌ (total_ext n f g (λ i lt. h i (omega arith))) (h n (omega arith))

pub term-le-total : (n : ℕ) (f : ℕ → ℕ) (i : ℕ) → i < n → f i ≤ total n f
unfolding total
term-le-total zero f i h = absurd (omega arith)
term-le-total (suc n) f i h = ground (arith, term-le-total n f i)

module _ (w : ℕ → ℕ → ℕ) where
  -- The blocks of one order.
  abbrev pub order_weight : (ℕ → List ℕ) → ℕ → ℕ
  order_weight blocks order = sum_by (w order) (blocks order)

  abbrev pub blocks_weight : ℕ → (ℕ → List ℕ) → ℕ
  blocks_weight max_order blocks = total max_order (order_weight blocks)

  blocks_weight-update_above :
      (n : ℕ) (blocks : ℕ → List ℕ) (order : ℕ) (new : List ℕ)
      → n ≤ order
      → blocks_weight n (update blocks order new) ≡ blocks_weight n blocks
  unfolding total
  blocks_weight-update_above zero blocks order new h = refl
  blocks_weight-update_above (suc n) blocks order new h =
      ground (arith, blocks_weight-update_above n blocks order new)

  pub blocks_weight-update :
      (n : ℕ) (blocks : ℕ → List ℕ) (order : ℕ) (new : List ℕ)
      → order < n
      → blocks_weight n (update blocks order new) + sum_by (w order) (blocks order)
        ≡ blocks_weight n blocks + sum_by (w order) new
  unfolding total
  blocks_weight-update zero blocks order new h = absurd (omega arith)
  blocks_weight-update (suc n) blocks order new h = ground (
    arith,
    blocks_weight-update n blocks order new,
    blocks_weight-update_above n blocks order new,
  )

-- How the free lists went from one state to another: for every weight, what left and what came.
-- The statistics are as before.
pub record Balance (max_order : ℕ) (a b : BuddyAllocator) (lost gained : (ℕ → ℕ → ℕ) → ℕ)
    : Type 0 where
  pub balance :
      (w : ℕ → ℕ → ℕ)
      → blocks_weight w max_order b.free_blocks + lost w
        ≡ blocks_weight w max_order a.free_blocks + gained w
  pub free_same : b.amount_free ≡ a.amount_free
  pub allocated_same : b.amount_allocated ≡ a.amount_allocated

pub Balance-trans :
    {max_order : ℕ} {a b c : BuddyAllocator} {l g l' g' : (ℕ → ℕ → ℕ) → ℕ}
    → Balance max_order a b l g
    → Balance max_order b c l' g'
    → Balance max_order a c (λ w. l w + l' w) (λ w. g w + g' w)
Balance-trans p q = record {
  balance = λ w. omega (arith, p.balance w, q.balance w);
  free_same = q.free_same ∙ p.free_same;
  allocated_same = q.allocated_same ∙ p.allocated_same;
}

pub Balance-sym :
    {max_order : ℕ} {a b : BuddyAllocator} {l g : (ℕ → ℕ → ℕ) → ℕ}
    → Balance max_order a b l g
    → Balance max_order b a g l
Balance-sym p = record {
  balance = λ w. omega (arith, p.balance w);
  free_same = sym p.free_same;
  allocated_same = sym p.allocated_same;
}

-- The same change with its losses and gains added up in another way.
pub Balance-regroup :
    {max_order : ℕ} {a b : BuddyAllocator} {l g l' g' : (ℕ → ℕ → ℕ) → ℕ}
    → ((w : ℕ → ℕ → ℕ) → l w + g' w ≡ l' w + g w)
    → Balance max_order a b l g
    → Balance max_order a b l' g'
Balance-regroup same p = record {
  balance = λ w. omega (arith, p.balance w, same w);
  free_same = p.free_same;
  allocated_same = p.allocated_same;
}

module _ (max_order : ℕ) (a : BuddyAllocator) (order : ℕ) (lt : order < max_order) where
  pub get_free_ok : get_free max_order a order ≡ ok (a.free_blocks order)
  unfolding get_free
  get_free_ok = rw (lt→ltb _ _ lt)

  -- Taking one block that is free.
  pub take_block_lem :
      (addr i : ℕ)
      → position addr (a.free_blocks order) ≡ some i
      → (b : BuddyAllocator) × (take_block max_order a order addr ≡ ok b)
        × Balance max_order a b (λ w. w order addr) (λ w. 0)
  unfolding take_block
  take_block_lem addr i found =
      let (rest, e, p) =
        swap_remove-perm (a.free_blocks order) i (get_elem?-position addr _ i found) in
      (
        set_free a order rest,
        rw (get_free_ok, found, e),
        record {
          balance = λ w. omega (
            arith,
            blocks_weight-update w max_order a.free_blocks order rest lt,
            sum_by-perm (w order) p,
          );
          free_same = refl;
          allocated_same = refl;
        },
      )

  -- Freeing one block.
  pub push_block_lem :
      (addr : ℕ)
      → (b : BuddyAllocator) × (push_block max_order a order addr ≡ ok b)
        × (b.free_blocks order ≡ a.free_blocks order ++ addr ∷ [])
        × Balance max_order a b (λ w. 0) (λ w. w order addr)
  unfolding push_block
  push_block_lem addr = (
    set_free a order (a.free_blocks order ++ addr ∷ []),
    rw get_free_ok,
    ground arith,
    record {
      balance = λ w. omega (
        arith,
        blocks_weight-update w max_order a.free_blocks order _ lt,
        sum_by-append (w order) (a.free_blocks order) (addr ∷ []),
      );
      free_same = refl;
      allocated_same = refl;
    },
  )
