-- ===== src/Paging/Tests/Locked.antt =====
-- Runs and witnesses for the locked page allocator, on the table of the other tests.
use cookie_os.Base.{◌%◌, ◌^◌, ◌≡◌, refl, ltb, [], ◌∷◌, ok, panic, arith}
use cookie_os.Paging.AlignedAddress as Address
use cookie_os.Paging.Allocations.{
  page, sub_table, no_items, item_then, PartialPageAllocation, partial, start_addr, end_addr,
}
use cookie_os.Paging.FirstFit.Levels.{no_deeper}
use cookie_os.Paging.FirstFit.Lowest.{lowest}
use cookie_os.Paging.FirstFit.Lowest.Runs.{pages_from}
use cookie_os.Paging.FirstFit.Lowest.Placement.{run_allocation}
use cookie_os.Paging.Locked.{Addresses, LevelBelow, LpaMetadata, LockedPageAllocator, new_default}
use cookie_os.Paging.Locked.Handles.{PageAllocation, start, alloc_downwards}
use cookie_os.Paging.Locked.Below.{alloc_downwards_panics}
use cookie_os.Paging.Locked.Flush.{page_addrs, page_offsets, IsPlaced}
use cookie_os.Paging.Tests.{test_pt, test_heap, test_state}

-- The addresses of the lower half.
abbrev pub test_addresses : Addresses
test_addresses = record { canonical_addr = λ a. a % 2 ^ 47; is_canonical = λ a. ltb a (2 ^ 47) }

abbrev pub test_level_below : LevelBelow no_deeper
test_level_below = record {
  map_base = λ is_global base flags self allocation parentoffset. panic;
  map_absent = λ held self allocation parentoffset. panic;
  split = λ self allocation mid. panic;
}

abbrev test_meta : LpaMetadata
test_meta = record { offset = 0x40000000; default_options = new_default }

abbrev pub test_locked : LockedPageAllocator (lowest test_pt test_heap)
test_locked = record { alloc = test_state; meta = test_meta; active_count = 1; flushed = [] }

-- An allocation of the pages 8 and 9.
abbrev test_handle : PageAllocation
test_handle = record { allocation = run_allocation 8 2; metadata = test_meta; baseaddr_offset = 0 }

-- It starts eight pages into the table, and nine are asked for.
test_handle-start : start test_addresses test_handle ≡ ok (record { value = 0x40008000 })
unfolding start Address.new start_addr pages_from
test_handle-start = refl

alloc_downwards_panics_example :
    alloc_downwards test_addresses
      (lowest test_pt test_heap)
      test_locked
      test_handle
      (record { value = 0x9000 })
    ≡ panic
alloc_downwards_panics_example =
    alloc_downwards_panics test_addresses (lowest test_pt test_heap) test_locked test_handle
      (record { value = 0x9000 }) (record { value = 0x40008000 }) test_handle-start (omega arith)

-- Two pages of the level above, with the first one split into pages 510 and 511 below it.
abbrev pub nested : PartialPageAllocation
nested =
    partial
      (item_then
        (sub_table 0 0 (partial (item_then (page 510 0) (item_then (page 511 4096) no_items)) 4096))
        (item_then (page 1 8192) no_items))
      0x200000

page_addrs-nested :
    page_addrs test_addresses nested 0x40000000 ≡ 0x401FE000 ∷ 0x401FF000 ∷ 0x40200000 ∷ []
unfolding start_addr page_offsets
page_addrs-nested = refl

pub nested-IsPlaced : IsPlaced test_addresses nested 0x40000000
unfolding start_addr end_addr page_offsets
nested-IsPlaced = record {
  ordered = omega arith;
  within = omega arith;
  aligned = refl;
  canonical = (refl, (refl, (refl, tt)));
}
