-- ===== src/Paging/Tests.antt =====
-- Runs of the definitions on concrete inputs, and witnesses.
mod Locked
mod Context
use cookie_os.Base.{
  ℕ, ◌+◌, ◌*◌, ◌/◌, ◌%◌, ◌^◌, ◌≤◌, ◌<◌, ◌≡◌, ◌≢◌, ◌⊎◌, refl, inl, inr, Bool, true, false, not, ltb,
  ◌==◌, ◌&&◌, ◌||◌, if◌then◌else◌, Option, none, some, [], ◌∷◌, Outcome, ok, panic, out_of_fuel,
  arith, Bool-cases, ==_iff,
}
use cookie_os.Base.Int.{ℤ, pos, negsuc, ◌+ℤ◌, ◌≤ℤ◌, rem_euclid}
use cookie_os.Paging.{page_align}
use cookie_os.Paging.AllocationSize.{PageAllocationSizeT, IsPageSize, new_rounded_with_excess_least}
use cookie_os.Paging.AllocationSize as Size
use cookie_os.Paging.AlignedOffset.{PageAlignedOffsetT, new_rounded_with_excess_greatest}
use cookie_os.Paging.AlignedOffset as Offset
use cookie_os.Paging.Flags.{PageFlags, no_tflags, no_mflags}
use cookie_os.Paging.Strategy.{new_default, with_reverse_order, with_max_page, allocation_default}
use cookie_os.Paging.Allocations.{PartialPageAllocation}
use cookie_os.Paging.Interface.{PageTable, PageTableLaws, MappingLaws}
use cookie_os.Paging.Entries.{
  Crate, CrateLaws, IsFrame, Bit, present, same_bit, x64_page_table, PageTableEntries,
  set_huge_addr, set_absent, get_entry,
}
use cookie_os.Paging.Entries.Laws.{
  x64_page_table_laws, x64_mapping_laws, get_entry-set_huge_addr, get_entry-set_absent, as_mapped,
}
use cookie_os.Paging.FirstFit.{MlffAllocator, set_availability}
use cookie_os.Paging.FirstFit.Bitmap.{
  availability, HasBytes, get_availability-set_availability, true_under, at-true_under,
}
use cookie_os.Paging.FirstFit.Search.{allocate, allocate_at}
use cookie_os.Paging.FirstFit.Release.{deallocate}
use cookie_os.Paging.FirstFit.Lowest.{lowest, IsLowest, is_used, availability_of}
use cookie_os.Paging.FirstFit.Lowest.Placement.{TakesRun, run_allocation}
use cookie_os.Paging.FirstFit.Lowest.Runs.{IsFreeRun, pages_from}
use cookie_os.Paging.FirstFit.Lowest.AllocatingAt.{pages_at, allocate_at-TakesRun}
use cookie_os.Paging.Split.{Splitter, split_alloc_inner}
use cookie_os.Paging.Mapping.{Foreach, set_base_addr}
use cookie_os.Paging.Mapping.Runs.{MapsRun, set_base_addr_lem, global_if}
use cookie_os.Paging.Split.Runs.{split_alloc_inner_lem}
use cookie_os.Paging.FirstFit.Levels.{no_deeper}
use cookie_os.Paging.FirstFit.Lowest.Allocating.{
  TakesFirstRun, allocate-TakesFirstRun, deallocate-allocate,
}

-- Entries as the x86_64 crate documents them: a mapping, or a word that is not one.
data TestEntry : Type 0 where
  mapped : (Bit → Bool) → ℕ → TestEntry
  word : ℕ → TestEntry

abbrev test_raw : TestEntry → ℕ
test_raw (mapped f a) = if f present then 1 else 2
test_raw (word n) = n

abbrev test_flags : TestEntry → Bit → Bool
test_flags (mapped f a) b = f b
test_flags (word n) b = same_bit present b && (n % 2 == 1)

abbrev test_addr : TestEntry → ℕ
test_addr (mapped f a) = a
test_addr (word n) = 0

abbrev test_crate : Crate
test_crate = record {
  Flags = Bit → Bool;
  no_flags = λ b. false;
  contains = λ f b. f b;
  insert = λ a f b. same_bit a b || f b;
  remove = λ a f b. not (same_bit a b) && f b;
  Entry = TestEntry;
  raw = test_raw;
  from_raw = word;
  is_unused = λ e. test_raw e == 0;
  set_unused = λ e. word 0;
  flags = test_flags;
  addr = test_addr;
  set_addr = λ e a f. if ltb a (2 ^ 52) && (a % 4096 == 0) then ok (mapped f a) else panic;
  set_flags = λ e f. mapped f (test_addr e);
}

test_present : (e : TestEntry) → test_flags e present ≡ (test_raw e % 2 == 1)
test_present (mapped f a) = elim (Bool-cases (f present)) [
  | inl h ↦ rw (h) refl
  | inr h ↦ rw (h) refl
]
test_present (word n) = refl

test_frame : (a : ℕ) → IsFrame a → (ltb a (2 ^ 52) && (a % 4096 == 0)) ≡ true
test_frame a h = ground (arith, h.0, h.1)

test_crate-CrateLaws : CrateLaws test_crate
test_crate-CrateLaws = record {
  contains-no_flags = λ b. refl;
  contains-insert = λ a b f. refl;
  contains-remove = λ a b f. refl;
  raw-from_raw = λ n h. refl;
  contains-present = test_present;
  is_unused-raw = λ e. refl;
  raw-set_unused = λ e. refl;
  set_addr_lem = λ e a f h. (mapped f a, rw (test_frame a h) refl, refl, λ b. refl);
  flags-set_flags = λ e f b. refl;
  addr-set_flags = λ e f. refl;
}

abbrev test_table : PageTableEntries test_crate true true
test_table idx = if idx == 1 then word 6 else word 0

abbrev test_flags_rw : PageFlags
test_flags_rw = record {
  tflags = record no_tflags { writeable = true };
  mflags = record no_mflags { global = true };
}

get_entry-set_huge_addr_example :
    (t : PageTableEntries test_crate true true) × (set_huge_addr test_crate true true 2 test_table 3
        8192 test_flags_rw
      ≡ ok t)
    × (get_entry test_crate true true t 3
        ≡ ok (inl (8192, as_mapped test_crate test_crate-CrateLaws true true test_flags_rw)))
    × ((j : ℕ)
        → j ≢ 3
        → get_entry test_crate true true t j ≡ get_entry test_crate true true test_table j)
get_entry-set_huge_addr_example =
    get_entry-set_huge_addr test_crate test_crate-CrateLaws true true 2 test_table 3 8192
      test_flags_rw (omega arith) (omega arith)

-- Data that takes 64 bits loses the highest one.
get_entry-set_absent_example :
    (t : PageTableEntries test_crate true true) × (set_absent test_crate true true test_table 3
        9223372036854775813
      ≡ ok t)
    × (get_entry test_crate true true t 3 ≡ ok (inr (9223372036854775813 % 2 ^ 63)))
    × ((j : ℕ)
        → j ≢ 3
        → get_entry test_crate true true t j ≡ get_entry test_crate true true test_table j)
get_entry-set_absent_example =
    get_entry-set_absent test_crate test_crate-CrateLaws true true test_table 3 9223372036854775813
      (omega arith)

-- The allocator of a table whose entry 1 is in use.
abbrev test_pt : PageTable
test_pt = x64_page_table test_crate true true 1

abbrev test_heap : ℕ → ℕ
test_heap idx = 18446603336221196288 + idx * 8192

unfoldable test_state : MlffAllocator (lowest test_pt test_heap)
unfolding x64_page_table
test_state = record {
  page_table = test_table;
  suballocators = λ idx. none;
  availability_bitmap = λ i. if i == 0 then 48 else 0;
  address = 0;
}

abbrev test_laws : PageTableLaws test_pt
test_laws = x64_page_table_laws test_crate test_crate-CrateLaws true true 1

in_step_table :
    true_under 512 (λ i.
      availability {g = lowest test_pt test_heap} test_state i
      == availability_of (is_used test_pt test_laws test_heap test_state i))
    ≡ true
unfolding true_under test_state x64_page_table x64_page_table_laws
in_step_table = refl

test_state-HasBytes : HasBytes {g = lowest test_pt test_heap} test_state
unfolding test_state
test_state-HasBytes k = ground arith

test_state-IsLowest : IsLowest test_pt test_laws test_heap test_state
unfolding test_state x64_page_table
test_state-IsLowest = record {
  npages_512 = refl;
  has_bytes = test_state-HasBytes;
  no_tables = λ i. refl;
  in_step = λ i h. (==_iff _ _).0 (at-true_under 512 _ in_step_table i h);
}

-- Three pages, searched from the end of the table, within the first 256.
allocate-TakesFirstRun_example :
    TakesFirstRun test_pt test_laws test_heap test_state 3
      (with_max_page 255 (with_reverse_order true new_default))
      (allocate
        (lowest test_pt test_heap)
        test_state
        10000
        (with_max_page 255 (with_reverse_order true new_default) ∷ []))
allocate-TakesFirstRun_example =
    allocate-TakesFirstRun test_pt test_laws test_heap test_state 10000
      (with_max_page 255 (with_reverse_order true new_default)) [] test_state-IsLowest (omega arith)
      (omega arith)

-- Two bytes on each side of the end of page 4.
allocate_at-TakesRun_example :
    TakesRun test_pt test_laws test_heap test_state
      (20478 / 4096)
      (pages_at 20478 4)
      (allocate_at (lowest test_pt test_heap) test_state 20478 4)
    ⊎ ((allocate_at (lowest test_pt test_heap) test_state 20478 4 ≡ ok (test_state, none))
        × ¬ IsFreeRun
            (is_used test_pt test_laws test_heap test_state)
            (20478 / 4096)
            (pages_at 20478 4))
allocate_at-TakesRun_example =
    allocate_at-TakesRun test_pt test_laws test_heap test_state 20478 4 test_state-IsLowest
      (omega arith)

get_availability-set_availability_example :
    (written : MlffAllocator (lowest test_pt test_heap)) × (set_availability
        {g = lowest test_pt test_heap} test_state 6 2
      ≡ ok written)
    × HasBytes {g = lowest test_pt test_heap} written
    × ((j : ℕ)
        → availability {g = lowest test_pt test_heap} written j
          ≡ (if j == 6 then 2 else availability {g = lowest test_pt test_heap} test_state j))
    × (written.page_table ≡ test_state.page_table)
    × (written.suballocators ≡ test_state.suballocators)
get_availability-set_availability_example =
    get_availability-set_availability {g = lowest test_pt test_heap} test_state 6 2 (omega arith)
      (omega arith) test_state-HasBytes

-- The first free run of two pages starts at page 2.
state_after :
    Outcome (MlffAllocator (lowest test_pt test_heap) × Option PartialPageAllocation)
    → MlffAllocator (lowest test_pt test_heap)
state_after (ok (self, result)) = self
state_after panic = test_state
state_after out_of_fuel = test_state

test_after : MlffAllocator (lowest test_pt test_heap)
unfolding state_after
test_after = state_after (allocate (lowest test_pt test_heap) test_state 8192 allocation_default)

test_allocated :
    allocate (lowest test_pt test_heap) test_state 8192 allocation_default
    ≡ ok (test_after, some (run_allocation 2 2))
unfolding test_after state_after allocate test_state x64_page_table pages_from
test_allocated = refl

deallocate-allocate_example :
    (freed : MlffAllocator (lowest test_pt test_heap)) × (deallocate
        (lowest test_pt test_heap)
        test_after
        (run_allocation 2 2)
      ≡ ok freed)
    × IsLowest test_pt test_laws test_heap freed
    × ((j : ℕ)
        → is_used test_pt test_laws test_heap freed j
          ≡ is_used test_pt test_laws test_heap test_state j)
deallocate-allocate_example =
    deallocate-allocate test_pt test_laws test_heap test_state 8192 new_default [] test_after
      (run_allocation 2 2) test_state-IsLowest (omega arith) tt test_allocated

abbrev test_split_below : Splitter no_deeper
test_split_below self allocation mid = panic

split_alloc_inner_lem_example :
    split_alloc_inner
      (lowest test_pt test_heap)
      test_split_below
      test_state
      (run_allocation 4 5)
      (2 * 4096)
    ≡ ok (test_state, run_allocation 4 2, run_allocation 6 3)
split_alloc_inner_lem_example =
    split_alloc_inner_lem test_pt test_heap test_split_below test_state 4 5 2 (omega arith)

abbrev test_below : Foreach no_deeper
test_below self allocation parentoffset = panic

abbrev test_mapping_laws : MappingLaws test_pt
test_mapping_laws = x64_mapping_laws test_crate test_crate-CrateLaws true true 1

test_run_fits : 4 + 5 ≤ test_pt.npages
unfolding x64_page_table
test_run_fits = omega arith

set_base_addr_lem_example :
    (after : MlffAllocator (lowest test_pt test_heap)) × (set_base_addr
        (lowest test_pt test_heap)
        test_below
        true
        test_state
        (run_allocation 4 5)
        81920
        test_flags_rw
      ≡ ok after)
    × MapsRun test_pt test_mapping_laws test_heap test_below test_state.page_table after.page_table
        4 4 5 81920
        (global_if true test_flags_rw)
set_base_addr_lem_example =
    set_base_addr_lem test_pt test_mapping_laws test_heap test_below test_state 4 5 81920 true
      test_flags_rw test_run_fits (omega arith) (omega arith)
