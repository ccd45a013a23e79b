-- ===== src/Physical/Tests.antt =====
-- physical.rs: runs of the allocator, and the theorems of the modules beside at one input.
use cookie_os.Base.{
  ℕ, ◌+◌, ◌-◌, ◌*◌, ◌≤◌, ◌<◌, ◌≡◌, ◌⊎◌, refl, List, [], ◌∷◌, Option, some, none, arith, Outcome, ok,
  panic, ◌==◌, if◌then◌else◌, Outcome-map, position, swap_remove, sum_by,
}
use cookie_os.Physical.{
  BuddyAllocator, PhysicalMemoryAllocation, MemoryMapEntry, empty_allocator, size_of, palloc, drop,
  is_for_general_use, add_memory, add_memory_fuel, add_orders, add_u64, div_usize, init_pmem,
  find_order, req_block, req_block_fuel, split, buddies, block_size, take_block, push_block, claim,
  merge, merge_loop, take_both,
}
use cookie_os.Physical.Weights.{total}
use cookie_os.Physical.Invariant.{cover, WellFormed}
use cookie_os.Physical.Palloc.{Claimed, palloc_lem}
use cookie_os.Physical.Release.{Released, IsBlock, drop_lem}
use cookie_os.Physical.Ranges.{usable}
use cookie_os.Physical.AddMemory.{add_memory_lem}
use cookie_os.Physical.InitPmem.{granted, init_pmem_lem}
use cookie_os.Physical.TopOrder.{merge_top_panics}
use cookie_os.Physical.Ownership.{
  System, Reach, start, next, allocate, held_cover, conservation, exclusive, palloc_returns,
  drop_returns,
}

-- `PFrameAllocator`
abbrev frames : ℕ
frames = 27

abbrev page : ℕ
page = 4096

-- Two megabytes at 0x200000 and four at 0x400000.
abbrev six_megabytes : BuddyAllocator
six_megabytes = record {
  free_blocks = λ o. if o == 9 then 0x200000 ∷ [] else if o == 10 then 0x400000 ∷ [] else [];
  amount_free = 0x600000;
  amount_allocated = 0;
}

six-WellFormed : WellFormed frames page six_megabytes
unfolding total
six-WellFormed = record { aligned = refl; counted = refl }

six-once : (x : ℕ) → cover frames page six_megabytes x ≤ 1
unfolding total
six-once x = ground arith

abbrev state_of {ℓ} : {A : Type ℓ} → Outcome (BuddyAllocator × A) → BuddyAllocator
state_of (ok (a, _)) = a
state_of r = empty_allocator

-- 10000 bytes: four pages, cut off the block of two megabytes.
abbrev four_pages : PhysicalMemoryAllocation
four_pages = record { addr = 0x200000; size = 0x4000; order = 2; block_addr = 0x200000 }

abbrev left_over : BuddyAllocator
left_over = state_of (palloc frames page six_megabytes 10000)

palloc-four_pages : palloc frames page six_megabytes 10000 ≡ ok (left_over, some four_pages)
unfolding palloc find_order req_block req_block_fuel split buddies block_size take_block push_block
    claim position swap_remove
palloc-four_pages = refl

-- Dropping it merges the seven splits back.
drop-four_pages :
    Outcome-map (λ b. b.free_blocks 9) (drop frames page left_over four_pages) ≡ ok (0x200000 ∷ [])
unfolding palloc find_order req_block req_block_fuel split buddies block_size take_block push_block
    claim position swap_remove drop merge merge_loop take_both
drop-four_pages = refl

one_held : System
one_held = record { allocator = left_over; held = four_pages ∷ [] }

reach : Reach frames page six_megabytes one_held
unfolding one_held
reach = next start (allocate 10000 left_over four_pages palloc-four_pages)

conservation_example :
    cover frames page left_over 0x200010 + held_cover (four_pages ∷ []) 0x200010 ≡ 1
unfolding one_held total
conservation_example =
    conservation frames page (omega arith) six_megabytes (omega arith) six-WellFormed refl reach
      0x200010

exclusive_example : (held_cover [] 0x200010 ≡ 0) × (cover frames page left_over 0x200010 ≡ 0)
unfolding one_held
exclusive_example =
    exclusive frames page (omega arith) six_megabytes (omega arith) six-WellFormed refl six-once
      reach [] [] four_pages refl 0x200010 (omega arith) (omega arith)

palloc_returns_example :
    (b : BuddyAllocator) × (r : Option PhysicalMemoryAllocation) × (palloc frames page left_over
        0x100000
      ≡ ok (b, r))
unfolding one_held
palloc_returns_example =
    palloc_returns frames page (omega arith) six_megabytes (omega arith) six-WellFormed refl reach
      0x100000

drop_returns_example :
    (b : BuddyAllocator) × (drop frames page left_over four_pages ≡ ok b)
    × Released frames page (omega arith) left_over b four_pages
unfolding one_held
drop_returns_example =
    drop_returns frames page (omega arith) six_megabytes (omega arith) six-WellFormed refl reach []
      [] four_pages refl

palloc_lem_example :
    ((palloc frames page six_megabytes 10000 ≡ ok (six_megabytes, none))
      × ((o : ℕ) → o < frames → 10000 ≤ size_of page o → six_megabytes.free_blocks o ≡ []))
    ⊎ ((b : BuddyAllocator) × (p : PhysicalMemoryAllocation) × (palloc frames page six_megabytes
            10000
          ≡ ok (b, some p))
        × Claimed frames page (omega arith) six_megabytes b p
        × (10000 ≤ p.size)
        × ((o : ℕ) → o < p.order → size_of page o < 10000))
palloc_lem_example = palloc_lem frames page (omega arith) six_megabytes 10000 six-WellFormed

four_pages-IsBlock : IsBlock frames page (omega arith) four_pages
four_pages-IsBlock = record {
  order_lt = omega arith;
  size_eq = refl;
  addr_eq = refl;
  addr_aligned = refl;
}

-- Four pages that some client holds beside the six megabytes.
abbrev with_four_pages : BuddyAllocator
with_four_pages = record six_megabytes { amount_allocated = 0x4000 }

drop_lem_example :
    (b : BuddyAllocator) × (drop frames page with_four_pages four_pages ≡ ok b)
    × Released frames page (omega arith) with_four_pages b four_pages
drop_lem_example =
    drop_lem frames page (omega arith) with_four_pages four_pages
      (record { aligned = six-WellFormed.aligned; counted = six-WellFormed.counted })
      four_pages-IsBlock (omega arith) (omega arith)

empty-WellFormed : WellFormed frames page empty_allocator
unfolding total
empty-WellFormed = record { aligned = refl; counted = refl }

-- A range that is not page aligned at either end.
add_memory_lem_example :
    (b : BuddyAllocator) × (add_memory frames page empty_allocator 0x200100 0x800200 ≡ ok b)
    × ((x : ℕ)
        → cover frames page b x
          ≡ cover frames page empty_allocator x + usable (page * 2) 0x200100 0x800200 x)
    × (b.amount_allocated ≡ 0)
    × (0 ≤ b.amount_free)
    × (b.amount_free ≤ 0 + (0x800200 - 0x200100))
    × WellFormed frames page b
add_memory_lem_example =
    add_memory_lem frames page (omega arith) (omega arith) empty_allocator 0x200100 0x800200
      empty-WellFormed (omega arith)

abbrev low_entry : MemoryMapEntry
low_entry = record { base_addr = 0; length = 0x9FC00; mem_type = 1 }

abbrev main_entry : MemoryMapEntry
main_entry = record { base_addr = 0x100000; length = 0x7EE0000; mem_type = 1 }

abbrev reserved_entry : MemoryMapEntry
reserved_entry = record { base_addr = 0xFEFFC000; length = 0x4000; mem_type = 2 }

abbrev mmap : List MemoryMapEntry
mmap = low_entry ∷ main_entry ∷ reserved_entry ∷ []

init_pmem_lem_example :
    (b : BuddyAllocator) × (init_pmem frames page 0x500000 empty_allocator mmap ≡ ok b)
    × ((x : ℕ)
        → cover frames page b x
          ≡ cover frames page empty_allocator x
            + sum_by (granted frames page (omega arith) (omega arith) 0x500000 x) mmap)
    × (b.amount_allocated ≡ 0)
    × WellFormed frames page b
unfolding is_for_general_use
init_pmem_lem_example =
    init_pmem_lem frames page (omega arith) (omega arith) 0x500000 empty_allocator mmap
      empty-WellFormed (omega arith) (omega arith)

-- The block of order 1 around the range ends at 2^64, which is out of range for a usize.
add_memory_overflow :
    add_memory frames page empty_allocator 0xFFFFFFFFFFFFE000 0xFFFFFFFFFFFFF000 ≡ panic
unfolding add_memory add_memory_fuel add_orders buddies block_size div_usize add_u64
add_memory_overflow = refl

-- Both halves of the first 512 GiB are free.
abbrev both_halves : BuddyAllocator
both_halves = record {
  free_blocks = λ o. if o == 26 then 0x4000000000 ∷ 0 ∷ [] else [];
  amount_free = 0x8000000000;
  amount_allocated = 0;
}

merge_top_panics_example : merge frames page both_halves 26 0 ≡ panic
unfolding position
merge_top_panics_example = merge_top_panics 26 page (omega arith) both_halves 0 1 0 refl refl
