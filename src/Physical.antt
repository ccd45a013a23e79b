-- ===== src/Physical.antt =====
-- kernel/rust/src/memory/physical.rs: the buddy allocator of physical memory. Every function takes
-- the constants MAX_ORDER and MIN_SIZE of the Rust type first; `PFrameAllocator` is the instance
-- 27, 4096. A `Vec` of free blocks is a list, and the array of them a function of the order, read
-- and written behind the bounds check of `free_blocks[order]`. Log lines are left out, but not the
-- sums that `init_pmem` makes for them. Addresses and amounts are natural numbers; `add_memory` and
-- `init_pmem`, which take what the boot loader says, check their sums for 64 bits as a debug build.
pub mod Blocks
pub mod Weights
pub mod SplitMerge
pub mod Invariant
pub mod Palloc
pub mod Release
pub mod Ranges
pub mod AddMemory
pub mod Ownership
pub mod InitPmem
pub mod TopOrder
mod Tests
use Prim.Native.Nat.{min, max}
use cookie_os.Base.{
  ℕ, zero, suc, ◌+◌, ◌-◌, ◌*◌, ◌/◌, ◌%◌, ◌^◌, ◌||◌, Option, none, some, List, [], ◌∷◌, ◌++◌, Bool,
  ltb, leb, ◌==◌, if◌then◌else◌, update, Outcome, ok, panic, out_of_fuel, ◌>>=◌, ◌>>◌, assert,
  expect, position, swap_remove,
}

pub record BuddyAllocator : Type 0 where
  pub free_blocks : ℕ → List ℕ
  pub amount_free : ℕ
  pub amount_allocated : ℕ

-- `PageAllocationSizeT` stands for its value here.
pub record PhysicalMemoryAllocation : Type 0 where
  pub addr : ℕ
  pub size : ℕ
  pub order : ℕ
  pub block_addr : ℕ

-- An unsigned division panics on 0.
pub div_usize : ℕ → ℕ → Outcome ℕ
div_usize a b = if b == 0 then panic else ok (a / b)

-- An unsigned subtraction panics below 0 (with overflow checks).
pub sub_usize : ℕ → ℕ → Outcome ℕ
sub_usize a b = if ltb a b then panic else ok (a - b)

-- A `u64` or `usize` addition panics on overflow.
pub add_u64 : ℕ → ℕ → Outcome ℕ
add_u64 a b = if ltb (a + b) (2 ^ 64) then ok (a + b) else panic

-- `MIN_SIZE << order`
abbrev pub size_of : ℕ → ℕ → ℕ
size_of min_size order = min_size * 2 ^ order

abbrev pub set_free : BuddyAllocator → ℕ → List ℕ → BuddyAllocator
set_free a order blocks = record a { free_blocks = update a.free_blocks order blocks }

-- `order.checked_sub(1).expect(..)`
pub pred_order : ℕ → Outcome ℕ
pred_order zero = panic
pred_order (suc order) = ok order

module _ (max_order : ℕ) where
  -- `&mut self.free_blocks[order]`
  pub get_free : BuddyAllocator → ℕ → Outcome (List ℕ)
  get_free a order = do assert (ltb order max_order); ok (a.free_blocks order)

  -- `iter().position(..).expect(..)`, then `swap_remove`
  pub take_block : BuddyAllocator → ℕ → ℕ → Outcome BuddyAllocator
  unfolding get_free
  take_block a order addr = do
    blocks ← get_free a order
    idx ← expect (position addr blocks)
    rest ← swap_remove blocks idx
    ok (set_free a order rest)

  pub push_block : BuddyAllocator → ℕ → ℕ → Outcome BuddyAllocator
  unfolding get_free
  push_block a order addr = do
    blocks ← get_free a order
    ok (set_free a order (blocks ++ addr ∷ []))

  -- The two removals of `merge`, the higher index first.
  pub take_both : BuddyAllocator → ℕ → ℕ → ℕ → Outcome BuddyAllocator
  unfolding get_free
  take_both a order low_idx high_idx = do
    blocks ← get_free a order
    blocks1 ← swap_remove blocks (max low_idx high_idx)
    blocks2 ← swap_remove blocks1 (min low_idx high_idx)
    ok (set_free a order blocks2)

module _ (max_order min_size : ℕ) where
  pub block_size : ℕ → Outcome ℕ
  block_size order = do assert (leb order max_order); ok (size_of min_size order)

  pub buddies : ℕ → ℕ → Outcome (ℕ × ℕ)
  unfolding block_size div_usize
  buddies order addr = do
    size ← block_size order
    let parent_size = size * 2
    q ← div_usize addr parent_size
    let low_addr = q * parent_size
    ok (low_addr, low_addr + size)

  pub split : BuddyAllocator → ℕ → ℕ → Outcome (BuddyAllocator × (ℕ × ℕ))
  unfolding pred_order
  split a order addr = do
    to_order ← pred_order order
    to_addrs ← buddies to_order addr
    a1 ← take_block max_order a order addr
    a2 ← push_block max_order a1 to_order to_addrs.0
    a3 ← push_block max_order a2 to_order to_addrs.1
    ok (a3, to_addrs)

  -- The part of `merge` past both `position(..)?`.
  pub merge_found :
      BuddyAllocator → ℕ → ℕ → Option ℕ → Option ℕ → Outcome (BuddyAllocator × Option ℕ)
  merge_found a order to_addr none high_idx = ok (a, none)
  merge_found a order to_addr (some low_idx) none = ok (a, none)
  merge_found a order to_addr (some low_idx) (some high_idx) = do
    a1 ← take_both max_order a order low_idx high_idx
    a2 ← push_block max_order a1 (suc order) to_addr
    ok (a2, some to_addr)

  pub merge : BuddyAllocator → ℕ → ℕ → Outcome (BuddyAllocator × Option ℕ)
  unfolding merge_found
  merge a order addr = if ltb max_order (suc order) then ok (a, none) else do
    addrs ← buddies order addr
    blocks ← get_free max_order a order
    merge_found a order addrs.0 (position addrs.0 blocks) (position addrs.1 blocks)

  -- The last lines of `add_memory` for a block that fits: it is pushed and counted.
  pub add_block : BuddyAllocator → ℕ → ℕ → Outcome BuddyAllocator
  unfolding add_u64
  add_block a order addr = do
    a1 ← push_block max_order a order addr
    size ← block_size order
    amount_free ← add_u64 a1.amount_free size
    ok (record a1 { amount_free = amount_free })

  -- The loop of `add_memory` from order `n` down to 1. `add` is `add_memory` itself.
  pub add_orders :
      (BuddyAllocator → ℕ → ℕ → Outcome BuddyAllocator)
      → ℕ
      → BuddyAllocator
      → ℕ
      → ℕ
      → Outcome BuddyAllocator
  unfolding add_u64
  add_orders add zero a start end = ok a
  add_orders add (suc split_order) a start end = do
    (block_start, block_mid) ← buddies split_order start
    half ← block_size split_order
    block_end ← add_u64 block_mid half
    a1 ← (if ltb start block_start then add a start block_start else ok a)
    let start1 = if ltb start block_start then block_start else start
    a2 ← (if ltb block_end end then add a1 block_end end else ok a1)
    let end1 = if ltb block_end end then block_end else end
    let rest = add_orders add split_order a2 start1 end1
    let is_partial = ltb block_start start1 || ltb end1 block_end
    if is_partial then rest else add_block a2 (suc split_order) block_start

  pub add_memory_fuel : ℕ → BuddyAllocator → ℕ → ℕ → Outcome BuddyAllocator
  add_memory_fuel zero a start end = out_of_fuel
  add_memory_fuel (suc fuel) a start end = add_orders (add_memory_fuel fuel) max_order a start end

  -- Each recursive call is on a shorter range.
  pub add_memory : BuddyAllocator → ℕ → ℕ → Outcome BuddyAllocator
  unfolding add_memory_fuel
  add_memory a start end = add_memory_fuel (suc (end - start)) a start end

  -- `(0..MAX_ORDER).position(|o| block_size(o) >= alloc_size)`, with `n` orders left from `order` on.
  pub find_order : ℕ → ℕ → ℕ → Outcome (Option ℕ)
  find_order alloc_size zero order = ok none
  find_order alloc_size (suc n) order = do
    size ← block_size order
    let rest = find_order alloc_size n (order + 1)
    if leb alloc_size size then ok (some order) else rest

  split_found : BuddyAllocator → ℕ → Option ℕ → Outcome (BuddyAllocator × Option ℕ)
  split_found a order none = ok (a, none)
  split_found a order (some splitblock) = do
    (a1, halves) ← split a (suc order) splitblock
    ok (a1, some halves.0)

  -- The fuel bounds how many orders the search climbs.
  pub req_block_fuel : ℕ → BuddyAllocator → ℕ → Outcome (BuddyAllocator × Option ℕ)
  unfolding split_found
  req_block_fuel zero a order = out_of_fuel
  req_block_fuel (suc fuel) a order =
      let above = req_block_fuel fuel a (suc order) in
      if leb max_order order then ok (a, none) else elim (a.free_blocks order) [
        | [] ↦ do (a1, found) ← above; split_found a1 order found
        | addr ∷ _ ↦ ok (a, some addr)
      ]

  pub req_block : BuddyAllocator → ℕ → Outcome (BuddyAllocator × Option ℕ)
  req_block a order = req_block_fuel (suc max_order) a order

  -- `PageAllocationSizeT::new_checked`, where PAGE_ALIGN is MIN_SIZE.
  pub new_checked : ℕ → Option ℕ
  new_checked size = if size == 0 then none else if size % min_size == 0 then some size else none

  -- `palloc` past the choice of the block, with the statistics and the free list.
  pub claim :
      BuddyAllocator → ℕ → Option ℕ → Outcome (BuddyAllocator × Option PhysicalMemoryAllocation)
  unfolding block_size sub_usize take_block new_checked
  claim a order none = ok (a, none)
  claim a order (some addr) = do
    size ← block_size order
    amount_free ← sub_usize a.amount_free size
    let counted = record a {
      amount_free = amount_free;
      amount_allocated = a.amount_allocated + size;
    }
    a1 ← take_block max_order counted order addr
    checked ← expect (new_checked size)
    ok (a1, some (record { addr = addr; size = checked; order = order; block_addr = addr }))

  palloc_order :
      BuddyAllocator → Option ℕ → Outcome (BuddyAllocator × Option PhysicalMemoryAllocation)
  palloc_order a none = ok (a, none)
  palloc_order a (some order) = do (a1, found) ← req_block a order; claim a1 order found

  pub palloc : BuddyAllocator → ℕ → Outcome (BuddyAllocator × Option PhysicalMemoryAllocation)
  unfolding palloc_order
  palloc a alloc_size = do order ← find_order alloc_size max_order 0; palloc_order a order

  -- `while let Some(newaddr) = allocator.merge(merge_order, merge_addr)`
  pub merge_loop : ℕ → BuddyAllocator → ℕ → ℕ → Outcome BuddyAllocator
  merge_loop zero a order addr = out_of_fuel
  merge_loop (suc fuel) a order addr = do
    (a1, merged) ← merge a order addr
    elim merged [ none ↦ ok a1 | some newaddr ↦ merge_loop fuel a1 (suc order) newaddr ]

  -- `PhysicalMemoryAllocation::drop`
  pub drop : BuddyAllocator → PhysicalMemoryAllocation → Outcome BuddyAllocator
  unfolding merge_loop push_block block_size sub_usize
  drop a allocation = do
    a1 ← push_block max_order a allocation.order allocation.block_addr
    a2 ← merge_loop (suc max_order) a1 allocation.order allocation.block_addr
    size ← block_size allocation.order
    amount_allocated ← sub_usize a2.amount_allocated size
    ok (record a2 { amount_allocated = amount_allocated; amount_free = a2.amount_free + size })

-- An entry of the boot loader's memory map (coredrivers/parser/multiboot.rs).
pub record MemoryMapEntry : Type 0 where
  pub base_addr : ℕ
  pub length : ℕ
  pub mem_type : ℕ

pub is_for_general_use : MemoryMapEntry → Bool
is_for_general_use entry = entry.mem_type == 1

-- `init_pmem`, where `kend` is the end of the kernel that the linker script gives.
module _ (max_order min_size kend : ℕ) where
  init_range : BuddyAllocator → ℕ → ℕ → Outcome BuddyAllocator
  init_range a start_addr end_addr =
      if leb kend start_addr
      then add_memory max_order min_size a start_addr end_addr
      else if ltb kend end_addr
      then add_memory max_order min_size a kend end_addr
      else ok a

  -- A turn of the loop, with `total_general_use`.
  general_entry : BuddyAllocator → ℕ → MemoryMapEntry → Outcome (BuddyAllocator × ℕ)
  unfolding add_u64 init_range
  general_entry a total_general_use entry = do
    total ← add_u64 total_general_use entry.length
    end_addr ← add_u64 entry.base_addr entry.length
    a1 ← init_range a entry.base_addr end_addr
    ok (a1, total)

  pub init_entry : BuddyAllocator → ℕ → MemoryMapEntry → Outcome (BuddyAllocator × ℕ)
  unfolding is_for_general_use general_entry
  init_entry a total_general_use entry =
      if is_for_general_use entry
      then general_entry a total_general_use entry
      else ok (a, total_general_use)

  pub init_entries : BuddyAllocator → ℕ → List MemoryMapEntry → Outcome (BuddyAllocator × ℕ)
  unfolding init_entry
  init_entries a total_general_use [] = ok (a, total_general_use)
  init_entries a total_general_use (entry ∷ mmap) = do
    (a1, total) ← init_entry a total_general_use entry
    init_entries a1 total mmap

  -- The totals that the last log line shows are worked out, and dropped.
  pub init_pmem : BuddyAllocator → List MemoryMapEntry → Outcome BuddyAllocator
  unfolding init_entries sub_usize
  init_pmem a mmap = do
    (a1, total_general_use) ← init_entries a 0 mmap
    total_added ← sub_usize a1.amount_free a.amount_free
    ok a1

-- The allocator before `init_pmem`.
abbrev pub empty_allocator : BuddyAllocator
empty_allocator = record { free_blocks = λ _. []; amount_free = 0; amount_allocated = 0 }
