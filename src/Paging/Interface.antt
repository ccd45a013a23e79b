-- ===== src/Paging/Interface.antt =====
-- kernel/rust/src/memory/paging/sealed.rs, the traits `IPageTableImpl`, a table of one level,
-- and `PageFrameAllocatorImpl`, an allocator of virtual memory, and the laws of a table that the proofs
-- about the allocator use. An index out of range panics. A `&mut` to the page table inside an allocator
-- is the table with the way to put a changed one back.
use cookie_os.Base.{
  ◌%◌, ◌^◌, inl, ℕ, ◌<◌, ◌≡◌, ◌≢◌, ◌⊎◌, Bool, Option, List, not, true, false, Outcome, ok,
}
use cookie_os.Paging.Flags.{PageFlags}
use cookie_os.Paging.Strategy.{PageAllocationStrategy}
use cookie_os.Paging.Allocations.{PartialPageAllocation}

pub record PageTable : Type 1 where
  pub Table : Type 0
  pub npages : ℕ
  pub new : Outcome Table
  pub is_unused : Table → ℕ → Outcome Bool
  pub get_num_pages_used : Table → Outcome ℕ
  -- the address and flags of an entry that is present, the data of one that is not
  pub get_entry : Table → ℕ → Outcome ((ℕ × PageFlags) ⊎ ℕ)
  pub set_subtable_addr : Table → ℕ → ℕ → Outcome Table
  -- the Boolean is INCLUDE_NON_TRANSITIVE
  pub add_subtable_flags : Bool → Table → ℕ → PageFlags → Outcome Table
  pub set_huge_addr : Table → ℕ → ℕ → PageFlags → Outcome Table
  pub set_absent : Table → ℕ → ℕ → Outcome Table
  pub set_empty : Table → ℕ → Outcome Table

-- 0xFFFF_FFFE_0000
abbrev pub reserved_data : ℕ
reserved_data = 281474976579584

unfoldable pub reserve : (pt : PageTable) → pt.Table → ℕ → Outcome pt.Table
reserve pt table idx = pt.set_absent table idx reserved_data

-- `used t idx` says whether an entry holds anything.
pub record PageTableLaws (pt : PageTable) : Type 0 where
  pub used : pt.Table → ℕ → Bool
  pub new_unused : (t : pt.Table) × (pt.new ≡ ok t) × ((idx : ℕ) → used t idx ≡ false)
  pub is_unused-used :
      (t : pt.Table) (idx : ℕ) → idx < pt.npages → pt.is_unused t idx ≡ ok (not (used t idx))
  pub reserve-used :
      (t : pt.Table) (idx : ℕ)
      → idx < pt.npages
      → (t' : pt.Table) × (pt.set_absent t idx reserved_data ≡ ok t')
        × (used t' idx ≡ true)
        × ((j : ℕ) → j ≢ idx → used t' j ≡ used t j)
  pub set_empty-unused :
      (t : pt.Table) (idx : ℕ)
      → idx < pt.npages
      → (t' : pt.Table) × (pt.set_empty t idx ≡ ok t')
        × (used t' idx ≡ false)
        × ((j : ℕ) → j ≢ idx → used t' j ≡ used t j)

-- `as_read` is what the flags of a mapping read back as.
pub record MappingLaws (pt : PageTable) : Type 0 where
  pub as_read : PageFlags → PageFlags
  pub get_entry-set_huge_addr :
      (t : pt.Table) (idx physaddr : ℕ) (flags : PageFlags)
      → idx < pt.npages
      → physaddr < 2 ^ 52
      → physaddr % 4096 ≡ 0
      → (t' : pt.Table) × (pt.set_huge_addr t idx physaddr flags ≡ ok t')
        × (pt.get_entry t' idx ≡ ok (inl (physaddr, as_read flags)))
        × ((j : ℕ) → j ≢ idx → pt.get_entry t' j ≡ pt.get_entry t j)

pub record PageFrameAllocator : Type 1 where
  pub State : Type 0
  pub npages : ℕ
  pub page_size : ℕ
  pub PageTableType : PageTable
  -- at the address where the allocator is put
  pub new : ℕ → Outcome State
  pub get_num_pages_used : State → Outcome ℕ
  pub is_full : State → Outcome Bool
  pub get_page_table_ptr : State → Outcome ℕ
  pub get_page_table_mut : State → Outcome (PageTableType.Table × (PageTableType.Table → State))
  pub allocate :
      State → ℕ → List PageAllocationStrategy → Outcome (State × Option PartialPageAllocation)
  pub allocate_at : State → ℕ → ℕ → Outcome (State × Option PartialPageAllocation)
  pub deallocate : State → PartialPageAllocation → Outcome State
  -- `none` for `Err(())`
  pub split_page : State → ℕ → Outcome (State × Option PartialPageAllocation)
  pub put_global_table : State → ℕ → ℕ → PageFlags → Outcome State
