-- ===== src/Physical/TopOrder.antt =====
-- physical.rs: blocks of the maximal order. `block_size` and the loops admit order MAX_ORDER, and
-- `free_blocks` has no list for it.
use native.Mathlib.Nat.{mul-mod_left}
use cookie_os.Base.{
  ℕ, suc, ◌+◌, ◌*◌, ◌/◌, ◌%◌, ◌^◌, ◌<◌, ◌≡◌, ◌≢◌, inl, inr, some, arith, Outcome, panic, position,
  ltb, le→not-ltb, Bool-cases,
}
use cookie_os.Physical.{
  BuddyAllocator, size_of, get_free, push_block, add_block, merge, merge_found, add_memory,
  add_orders, add_memory_fuel,
}
use cookie_os.Physical.Blocks.{size_of-suc, size_of-pos, round_down}
use cookie_os.Physical.Weights.{get_free_ok}
use cookie_os.Physical.SplitMerge.{buddies_lem, block_size_lem, take_both_lem}

module _ (o min_size : ℕ) (pos : 0 < min_size) where
  abbrev size : ℕ → ℕ
  size = size_of min_size

  push_top : (a : BuddyAllocator) (addr : ℕ) → push_block (suc o) a (suc o) addr ≡ panic
  unfolding push_block get_free
  push_top a addr = rw (le→not-ltb (suc o) (suc o) (omega arith))

  add_orders_top :
      (add : BuddyAllocator → ℕ → ℕ → Outcome BuddyAllocator) (a : BuddyAllocator) (s e : ℕ)
      → s / (size o * 2) * (size o * 2) ≡ s
      → s + size o + size o ≡ e
      → add_orders (suc o) min_size add (suc o) a s e ≡ panic
  unfolding add_orders add_block
  add_orders_top add a s e whole end = elim (Bool-cases (ltb e (2 ^ 64))) [
    | inl room ↦ rw (
      buddies_lem (suc o) min_size pos o s (omega arith),
      block_size_lem (suc o) min_size pos o (omega arith),
      whole,
      end,
      room,
      le→not-ltb s s (omega arith),
      le→not-ltb e e (omega arith),
      le→not-ltb s s (omega arith),
      le→not-ltb e e (omega arith),
      push_top a s,
    )
    | inr high ↦ rw (
      buddies_lem (suc o) min_size pos o s (omega arith),
      block_size_lem (suc o) min_size pos o (omega arith),
      whole,
      end,
      high,
    )
  ]

  -- With MAX_ORDER = o + 1 and a positive MIN_SIZE: adding exactly one aligned block of the maximal order panics.
  add_memory_top_panics :
      (a : BuddyAllocator) (k : ℕ)
      → let s = k * size (suc o) in add_memory (suc o) min_size a s (s + size (suc o)) ≡ panic
  unfolding add_memory add_memory_fuel
  add_memory_top_panics a k =
      let whole = round_down (size o) s (size_of-pos min_size o pos) (rw double multiple) in
      add_orders_top _ a s (s + size (suc o)) whole (omega (arith, double))
    where
      s : ℕ
      s = k * size (suc o)

      double : size (suc o) ≡ size o * 2
      double = size_of-suc min_size o

      multiple : k * (size o * 2) % (size o * 2) ≡ 0
      multiple = mul-mod_left k (size o * 2)

  -- With MAX_ORDER = o + 1 and a positive MIN_SIZE: merging two free buddies of order `o` panics.
  pub merge_top_panics :
      (a : BuddyAllocator) (addr i j : ℕ)
      → let low = addr / (size o * 2) * (size o * 2) in
        position low (a.free_blocks o) ≡ some i
        → position (low + size o) (a.free_blocks o) ≡ some j
        → merge (suc o) min_size a o addr ≡ panic
  unfolding merge merge_found
  merge_top_panics a addr i j e f =
      let (b, taken, _) = take_both_lem (suc o) min_size pos a o _ _ i j (omega arith) apart e f in
      rw (
        le→not-ltb (suc o) (suc o) (omega arith),
        buddies_lem (suc o) min_size pos o addr (omega arith),
        get_free_ok (suc o) a o (omega arith),
        e,
        f,
        merge_found,
        taken,
        push_top b _,
      )
    where
      apart : addr / (size o * 2) * (size o * 2) ≢ addr / (size o * 2) * (size o * 2) + size o
      apart h = omega (arith, size_of-pos min_size o pos)
