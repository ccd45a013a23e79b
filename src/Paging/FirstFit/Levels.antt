-- ===== src/Paging/FirstFit/Levels.antt =====
-- kernel/rust/src/memory/paging/allocators/firstfit.rs, the implementation of the trait, with
-- allocators/nodeeper.rs below the lowest level, and the four levels of arch/x86_64.rs.
use cookie_os.Base.{ℕ, Bool, true, false, ok, panic}
use cookie_os.Paging.Interface.{PageTable, PageFrameAllocator}
use cookie_os.Paging.Entries.{Crate, x64_page_table}
use cookie_os.Paging.FirstFit.{Generics, MlffAllocator, page_size, new, is_full}
use cookie_os.Paging.FirstFit.Search.{allocate, allocate_at}
use cookie_os.Paging.FirstFit.Release.{deallocate, split_page, put_global_table}

abbrev pub no_deeper_table : PageTable
no_deeper_table = record {
  Table = Unit;
  npages = 0;
  new = panic;
  is_unused = λ t idx. panic;
  get_num_pages_used = λ t. panic;
  get_entry = λ t idx. panic;
  set_subtable_addr = λ t idx phys_addr. panic;
  add_subtable_flags = λ b t idx flags. panic;
  set_huge_addr = λ t idx physaddr flags. panic;
  set_absent = λ t idx held. panic;
  set_empty = λ t idx. panic;
}

abbrev pub no_deeper : PageFrameAllocator
no_deeper = record {
  State = Unit;
  npages = 0;
  page_size = 0;
  PageTableType = no_deeper_table;
  new = λ address. panic;
  get_num_pages_used = λ s. panic;
  is_full = λ s. panic;
  get_page_table_ptr = λ s. panic;
  get_page_table_mut = λ s. panic;
  allocate = λ s size strategies. panic;
  allocate_at = λ s addr size. panic;
  deallocate = λ s allocation. panic;
  split_page = λ s index. panic;
  put_global_table = λ s index phys_addr flags. panic;
}

unfoldable pub mlff_allocator : Generics → PageFrameAllocator
unfolding page_size new is_full allocate allocate_at deallocate split_page put_global_table
mlff_allocator g = record {
  State = MlffAllocator g;
  npages = g.pt.npages;
  page_size = page_size g;
  PageTableType = g.pt;
  new = new g;
  get_num_pages_used = λ self. g.pt.get_num_pages_used self.page_table;
  is_full = λ self. ok (is_full self);
  get_page_table_ptr = λ self. ok self.address;
  get_page_table_mut = λ self. ok (self.page_table, λ table. record self { page_table = table });
  allocate = allocate g;
  allocate_at = allocate_at g;
  deallocate = deallocate g;
  split_page = split_page g;
  put_global_table = put_global_table g;
}

-- The generic arguments at each level; `huge_1g` is the feature `1G_huge_pages`, and `heap level idx`
-- is where the table below an entry is put.
module _ (c : Crate) (per_page_nxe_bit page_global_bit huge_1g : Bool) (heap : ℕ → ℕ → ℕ) where
  unfoldable pub x64_level1 : Generics
  x64_level1 = record {
    st = no_deeper;
    pt = x64_page_table c per_page_nxe_bit page_global_bit 1;
    subtables = false;
    hugepages = true;
    heap = heap 1;
  }

  unfoldable pub x64_level2 : Generics
  unfolding x64_level1
  x64_level2 = record {
    st = mlff_allocator x64_level1;
    pt = x64_page_table c per_page_nxe_bit page_global_bit 2;
    subtables = true;
    hugepages = true;
    heap = heap 2;
  }

  unfoldable pub x64_level3 : Generics
  unfolding x64_level2
  x64_level3 = record {
    st = mlff_allocator x64_level2;
    pt = x64_page_table c per_page_nxe_bit page_global_bit 3;
    subtables = true;
    hugepages = huge_1g;
    heap = heap 3;
  }

  unfoldable pub x64_level4 : Generics
  unfolding x64_level3
  x64_level4 = record {
    st = mlff_allocator x64_level3;
    pt = x64_page_table c per_page_nxe_bit page_global_bit 4;
    subtables = true;
    hugepages = false;
    heap = heap 4;
  }
