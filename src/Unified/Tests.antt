-- ===== src/Unified/Tests.antt =====
-- Runs of the definitions on a small memory that keeps a record of what is mapped, and witnesses.
use cookie_os.Base.{
  ℕ, ◌+◌, ◌-◌, ◌≡◌, refl, true, false, none, some, List, [], ◌∷◌, ok, panic, ◌>>=◌, ◌≢◌,
  out_of_fuel, arith,
}
use cookie_os.Base.Int.{ℤ, pos, ◌+ℤ◌}
use cookie_os.Paging.AllocationSize.{PageAllocationSizeT}
use cookie_os.Paging.AlignedOffset.{PageAlignedOffsetT}
use cookie_os.Paging.Flags.{empty}
use cookie_os.Unified.{
  uninit_mem, Memory, VirtualAllocation, VirtualSlot, UnifiedAllocationInner, BackingSection,
  phys_mem_exclusive, backing_section, AllocationBacking,
}
use cookie_os.Unified.Offsets.{IsWindow}
use cookie_os.Unified.Remap.{remap_turn}
use cookie_os.Unified.Remap.Pages.{remap_pages, drop_all}
use cookie_os.Unified.Remap.Within.{map_each}
use cookie_os.Unified.Remap.Whole.{mapped_once, remap_pages-map_each, remap_pages_drops}
use cookie_os.Unified.Remap.Ends.{AlwaysEnds}
use cookie_os.Unified.Remap.Turns.{remap_pages_ends}
use cookie_os.Unified.Expand.{allocate_new_backing, expand_downwards}
use cookie_os.Unified.Expand.Covered.{IsCovered, expand_downwards_lem}
use cookie_os.Unified.Mapping.{new_virt_mapping}
use cookie_os.Unified.Stack.{AllocatedStack}
use cookie_os.Unified.Stack.Grow.{expand, expand_panics}

abbrev offset_of : ℤ → PageAlignedOffsetT
offset_of x = record { value = x }

abbrev pages : ℕ → PageAllocationSizeT
pages n = record { value = n }

-- Where a place starts, and to what it is mapped.
abbrev Mapped : Type 0
Mapped = List (ℕ × ℕ)

-- A world is the list of mappings made and places dropped. A place is its address and its size.
abbrev test_memory : Memory
test_memory = record {
  World = List (ℕ × ℕ);
  PageAllocation = ℕ × ℕ;
  start = λ a. ok (record { value = a.0 });
  size = λ a. ok (record { value = a.1 });
  pt_phys_addr = λ w a. ok 0;
  set_base_addr = λ w a addr flags. ok ((a.0, addr) ∷ w);
  set_absent = λ w a held. ok ((a.0, 0) ∷ w);
  split_dyn = λ w a mid. ok (w, (a.0, mid.value), (a.0 + mid.value, a.1 - mid.value));
  alloc_downwards_dyn = λ w a size. ok (w, some (a.0 - size.value, size.value));
  drop_page_allocation = λ w a. ok ((a.0, 1) ∷ w);
  kernel_allocate = λ w size strategy. ok (w, some (0, size.value));
  kernel_allocate_at = λ w addr size. ok (w, some (addr.value, size.value));
  palloc = λ w size.
      ok (w, some (record { addr = 0x100000; size = size.value; order = 0; block_addr = 0 }));
  drop_physical = λ w p. ok w;
  drop_backing = λ w b. ok w;
  new_descriptor = λ w pt virt item. ok (w, 0);
  drop_descriptor = λ w h. ok w;
  write_zeroes = λ w ptr count. ok w;
}

abbrev virt : ℕ → ℕ → VirtualAllocation test_memory
virt start size = record {
  allocation = (start, size);
  size = pages size;
  absent_pages_table_handle = 0;
}

abbrev section_from : ℕ → ℕ → BackingSection
section_from addr size =
    backing_section
      (phys_mem_exclusive (record { addr = addr; size = size; order = 0; block_addr = addr }))
      (pages size)

abbrev test_slot : VirtualSlot test_memory
test_slot = record { allocations = []; default_flags = empty; offset = offset_of (pos 0) }

abbrev test_backing : AllocationBacking
test_backing = record {
  sections = section_from 0x100000 8192 ∷ [];
  requested_type = uninit_mem;
  offset = offset_of (pos 0);
  total_size = pages 8192;
}

test-IsWindow : IsWindow (pos 0) 0x10000
test-IsWindow = omega arith

-- A place of two pages in two parts.
remap_pages-map_each_example :
    remap_pages test_memory []
      (mapped_once test_memory
        (offset_of (pos 0))
        test_backing
        (section_from 0x100000 8192 ∷ [])
        test_slot
        (virt 0x4000 4096 ∷ virt 0x5000 4096 ∷ []))
      7
      none
      false
    ≡ (map_each test_memory
          (section_from 0x100000 8192)
          test_slot
          false
          []
          0
          (virt 0x4000 4096 ∷ virt 0x5000 4096 ∷ [])
        >>= λ world. ok (
          world,
          mapped_once test_memory
              (offset_of (pos 0))
              test_backing
              (section_from 0x100000 8192 ∷ [])
              test_slot
              (virt 0x4000 4096 ∷ virt 0x5000 4096 ∷ []),
        ))
remap_pages-map_each_example =
    remap_pages-map_each test_memory 7 false (pos 0) 0x10000 test-IsWindow [] test_backing
      (section_from 0x100000 8192) test_slot (virt 0x4000 4096 ∷ virt 0x5000 4096 ∷ [])
      (omega arith) (omega arith) (omega arith) (omega arith)

-- Two sections of a page, and a place of two pages.
remap_pages_drops_example :
    remap_pages test_memory []
      (mapped_once test_memory
        (offset_of (pos 0))
        test_backing
        (section_from 0x100000 4096 ∷ section_from 0x200000 4096 ∷ [])
        test_slot
        (virt 0x4000 4096 ∷ virt 0x5000 4096 ∷ []))
      7
      none
      false
    ≡ (map_each test_memory
          (section_from 0x100000 4096)
          test_slot
          false
          []
          0
          (virt 0x4000 4096 ∷ [])
        >>= λ world. drop_all test_memory world (virt 0x5000 4096 ∷ []) >>= λ world. ok (
          world,
          mapped_once test_memory
              (offset_of (pos 0))
              test_backing
              (section_from 0x100000 4096 ∷ section_from 0x200000 4096 ∷ [])
              test_slot
              (virt 0x4000 4096 ∷ []),
        ))
remap_pages_drops_example =
    remap_pages_drops test_memory 7 false (pos 0) 0x10000 test-IsWindow [] test_backing
      (section_from 0x100000 4096) (section_from 0x200000 4096 ∷ []) test_slot
      (virt 0x4000 4096 ∷ []) (virt 0x5000 4096) [] (omega arith) (omega arith) (omega arith)
      (omega arith) (omega arith) (omega arith)

-- The run itself: the second page is dropped.
remap_two_sections :
    remap_pages test_memory []
      (mapped_once test_memory
        (offset_of (pos 0))
        test_backing
        (section_from 0x100000 4096 ∷ section_from 0x200000 4096 ∷ [])
        test_slot
        (virt 0x4000 4096 ∷ virt 0x5000 4096 ∷ []))
      7
      none
      false
    ≡ ok (
      (0x5000, 1) ∷ (0x4000, 0x100000) ∷ [],
      mapped_once test_memory
          (offset_of (pos 0))
          test_backing
          (section_from 0x100000 4096 ∷ section_from 0x200000 4096 ∷ [])
          test_slot
          (virt 0x4000 4096 ∷ []),
    )
unfolding remap_pages remap_turn
remap_two_sections = refl

abbrev test_inner : UnifiedAllocationInner test_memory
test_inner = record { virt_slots = none ∷ []; backing = test_backing }

test_backing-IsCovered : IsCovered test_backing
test_backing-IsCovered = omega arith

new_section :
    allocate_new_backing test_memory [] uninit_mem (pages 4096)
    ≡ ok (
      [],
      some
          (phys_mem_exclusive (record { addr = 0x100000; size = 4096; order = 0; block_addr = 0 })),
    )
unfolding allocate_new_backing
new_section = refl

expand_downwards_lem_example :
    (grown : UnifiedAllocationInner test_memory) × (expand_downwards test_memory [] test_inner
        (pages 4096)
      ≡ ok ([], grown, true))
    × IsCovered grown.backing
    × (grown.backing.sections
        ≡ backing_section
            (phys_mem_exclusive
              (record { addr = 0x100000; size = 4096; order = 0; block_addr = 0 }))
            (pages 4096)
          ∷ section_from 0x100000 8192
          ∷ [])
    × (grown.backing.offset.value +ℤ pos 4096 ≡ pos 0)
    × (grown.virt_slots ≡ none ∷ [])
expand_downwards_lem_example =
    expand_downwards_lem test_memory [] [] test_inner (pages 4096)
      (phys_mem_exclusive (record { addr = 0x100000; size = 4096; order = 0; block_addr = 0 }))
      test_backing-IsCovered (omega arith) (omega arith) (omega arith) (omega arith) new_section

-- A new mapping of one page takes the empty slot.
map_first :
    new_virt_mapping test_memory [] test_inner 7 (0x4000, 4096) empty (offset_of (pos 4096))
    ≡ ok (
      (0x4000, 0x101000) ∷ [],
      record test_inner {
        virt_slots =
            some (record {
              allocations = virt 0x4000 4096 ∷ [];
              default_flags = empty;
              offset = offset_of (pos 4096);
            })
            ∷ [];
      },
      0,
    )
unfolding new_virt_mapping remap_turn
map_first = refl

abbrev test_stack : AllocatedStack test_memory
test_stack = record {
  stack_main = record { inner = test_inner; arc = 7; slot_index = 0 };
  guard_page = record { inner = test_inner; arc = 8; slot_index = 0 };
  page_flags = empty;
  guard_size = pages 4096;
}

expand_panics_example : expand test_memory [] test_stack (pages 8192) ≡ panic
expand_panics_example = expand_panics test_memory [] test_stack (pages 8192)

test_memory-AlwaysEnds : AlwaysEnds test_memory
test_memory-AlwaysEnds = record {
  start = λ a. tt;
  size = λ a. tt;
  pt_phys_addr = λ w a. tt;
  set_base_addr = λ w a n flags. tt;
  set_absent = λ w a n. tt;
  split_dyn = λ w a s. tt;
  drop_page_allocation = λ w a. tt;
  new_descriptor = λ w pt n a. tt;
  drop_descriptor = λ w n. tt;
}

-- One place of 12288 bytes over a section of 8192 bytes.
remap_pages_ends_example :
    remap_pages test_memory []
      (mapped_once test_memory
        (offset_of (pos 0))
        test_backing
        (section_from 0x100000 8192 ∷ [])
        test_slot
        (virt 0x400000 12288 ∷ []))
      0
      none
      false
    ≢ out_of_fuel
remap_pages_ends_example =
    remap_pages_ends test_memory test_memory-AlwaysEnds []
      (mapped_once test_memory (offset_of (pos 0)) test_backing (section_from 0x100000 8192 ∷ [])
        test_slot (virt 0x400000 12288 ∷ []))
      0 none false
