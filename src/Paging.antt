-- ===== src/Paging.antt =====
-- kernel/rust/src/memory/paging: sizes, offsets and addresses in whole pages, page-table entries, and
-- the first-fit allocator of virtual memory. `page_align` is PAGE_ALIGN, the page size of the lowest
-- page table. The assertions are those of a debug build.
pub mod AllocationSize
pub mod AlignedOffset
pub mod AlignedAddress
pub mod Flags
pub mod Strategy
pub mod Allocations
pub mod Interface
pub mod Entries
pub mod FirstFit
pub mod Split
pub mod Mapping
pub mod Locked
pub mod Context
mod Tests
use cookie_os.Base.{ℕ, ◌^◌, Bool, ltb}

abbrev pub page_align : ℕ
page_align = 4096

abbrev pub is_usize : ℕ → Bool
is_usize x = ltb x (2 ^ 64)
