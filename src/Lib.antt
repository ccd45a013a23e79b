-- ===== src/Lib.antt =====
-- A kernel for one or more CPUs in Rust (kernel/rust/src). The library models the parts of it that
-- decide who owns what: the allocator of physical memory, the guards that turn interruptions off,
-- the page tables and the allocator of virtual memory, the locks, the handles to descriptors, the
-- scheduler and the waiting lists. It is a shallow
-- embedding: a Rust function is a function here, by the same name where it has one, and a call
-- that can panic returns an `Outcome`.
--
-- How the parts interact. The boot loader's memory map goes through `init_pmem` into the buddy
-- allocator, from which paging and the heap take frames by `palloc`; an allocation that is dropped
-- returns its block. Locks of the kernel are instances of the base locks, with a strategy that
-- says what happens at an unlock or a failed attempt. A task that yields is put away by the
-- scheduler of its CPU: on the run queue, among the sleeping tasks, on a waiting list, or to be
-- dropped. A notification takes it off the waiting list, and a tick of the timer wakes the
-- sleepers that are due. Guards keep interrupts and yields off while the scheduler switches or a
-- lock is held.
--
-- Which file models which part:
--   Base            names of the libraries, Boolean tests, `Outcome`, `Vec` as a list, sums
--   Physical        kernel/rust/src/memory/physical.rs: definitions of all its functions, and of the
--                   entries of the memory map (coredrivers/parser/multiboot.rs) and
--                   `PageAllocationSizeT::new_checked` (memory/paging/api.rs) that they use
--     Blocks, Weights   addresses in a block; how many free blocks contain an address
--     SplitMerge, Invariant   `split` and `merge`, and the well-formed allocators
--     Palloc, Release         `palloc`, and `PhysicalMemoryAllocation::drop`
--     Ranges, AddMemory, InitPmem   ranges of memory, `add_memory`, `init_pmem`
--     Ownership       `palloc` and `drop` in any sequence
--     TopOrder        what happens at the order MAX_ORDER
--   Paging          kernel/rust/src/memory/paging
--     AllocationSize, AlignedOffset, AlignedAddress   api.rs: numbers in whole pages, with their rounding
--     Flags           api.rs: PageFlags and its operators
--     Strategy        strategy.rs, and the strategies of arch/x86_64.rs
--     Allocations     sealed.rs: PAllocItem and PartialPageAllocation
--     Interface       sealed.rs: the traits of a page table and of an allocator as records
--     Entries         arch/x86_64.rs: X64PageTable over a `Crate`, the interface of the x86_64 crate
--       Laws            what is read back from an entry
--     FirstFit        allocators/firstfit.rs: the state of MLFFAllocator and its bookkeeping
--       Bitmap          the availability bitmap as an array
--       Allocate, Search, Release   its operations: `allocate` and `allocate_at`, `deallocate`,
--                       `split_page` and `put_global_table`
--       Levels          the implementation of the trait, allocators/nodeeper.rs, the levels 1 to 4
--       Lowest          the level without tables below: Runs of pages, Bounds and Order of the
--                       search, Placement of a request, Allocating and AllocatingAt for whole operations
--     Split, Mapping  api.rs: the split of an allocation and the mapping of its entries, each with
--                     a module Runs for runs of pages
--     Locked          api.rs: LockedPageAllocator with its count of users and the guard that writes
--                     to it, and the addresses that arch/x86_64.rs flushes
--       Handles         `PageAllocation`, and the calls of its owner
--       Below           `alloc_downwards` without room
--       Flush, Count    what a guard flushes, and the count of users that it leaves alone
--     Context         api.rs: PagingContext; Users for what the count of users of a table counts
--   Unified         kernel/rust/src/memory/unified.rs: the data of unified allocations, and the interface
--                   `Memory` to virtual and physical memory and to the descriptors of absent pages
--     Offsets         sums and differences of offsets from one place
--     Remap           a turn of the loop of `_remap_pages`; Pages for the whole function, Fast for
--                     `_remap_pages_fast`, Within for one section, Whole for one place, Ends for the
--                     calls that it makes, and Turns for the end of its loops
--     Expand, Vmem    new backing and growth, with the sums that they keep (Covered); `expand_vmem`
--     Mapping         slots, guards and offset-mapped allocations
--     Stack           `AllocatedStack`; its growth in Grow
--   Interruptions   kernel/rust/src/multitasking/interruptions.rs
--     Stack, Guards   the stack of saved states; guards dropped in any order
--   Descriptors     kernel/rust/src/descriptors.rs: one descriptor
--     Handles         the atomic operations of all holders of handles
--     Counts, Slots, Kept    what the reference counts count, and what a handle finds and keeps
--   Scheduler       kernel/rust/src/multitasking/scheduler.rs and task.rs
--     Tick            `_scheduler_tick`
--     Machine         all CPUs and waiting lists as one machine, and its steps
--     Counts, Conservation   how often a task occurs, and that no step changes it
--   Sync.BaseLocks  kernel/rust/src/sync/baselocks.rs and spinlocks.rs
--     Steps           threads on one reader-writer lock, an atomic operation at a time
--     Counts, Exclusion      what the value of the lock counts, and what it keeps apart
--   Sync.NoInterruptionsLocks   kernel/rust/src/sync/nointerruptionslocks.rs
--     Calls           what a call does to the guard of interruptions in a wrapper
--     Watch           locks that note the CPU each time they are taken, converted or released
--     Held            a CPU that takes, converts and drops such locks in any order
--   Sync.Promise    kernel/rust/src/sync/promise.rs: the cell that is set once
--     Once            threads that set and get it
--     Acknowledgement   promise.rs: an atomic that is set once, with threads that wait for it
--   Sync.Queue      kernel/rust/src/sync/queue.rs
--     Steps           tasks in `get` and `push`, a use of a lock at a time
--     Delivery        the order of the items, and that none is left to a sleeping task
--   Waitlist        kernel/rust/src/sync/waitlist.rs
--     Notify          what `notify_all` wakes
--     Wakeup, Woken   threads in `wait_until_try` against `notify_all`, and that none is left
--   CpuLocal        kernel/rust/src/multitasking/cpulocal.rs
--     Sections, Steps a call each time it has the lock; tasks that call at the same time
--     Stable          a value stays the same once it was got
-- A module Tests holds runs at concrete states.
--
-- Bounds and fuel. Numbers are natural numbers. The 64-bit value of the reader-writer lock wraps,
-- and its theorems are for fewer than 256 threads: 256 attempts to lock it upgradably, all about
-- to be undone, would add up to the value of a writer. NEXT_ID wraps too, and the machine of the
-- scheduler makes fewer than 2^64 tasks. A descriptor has fewer than 60000 holders, as its counts
-- have 16 bits, and a page table fewer than 2^16 users, for the same reason. The allocator's
-- constants MAX_ORDER (27) and MIN_SIZE (4096) are parameters; its theorems need no block of the
-- order MAX_ORDER, of 512 GiB. `add_memory_fuel` gets one more than the length of the range, and
-- each recursive call is on a shorter one; `merge_loop` and `req_block_fuel` get one more than
-- MAX_ORDER, and each turn is an order higher; `notify_loop` gets one more than the length of the
-- list, and `initialise_loop` two more than the index that the `Vec` is to have. `remap_loop` gets
-- two more than the number of allocations that are left: a turn takes one away, or splits one at
-- an end of the section, which happens once for each end. The theorems on these functions prove
-- that it is enough. A page table has 512 entries, and its loops recurse on the number of entries
-- that are left.
-- Sums that a request or the memory map can overflow are checked as a debug build checks them.
--
-- Not modelled: memory orderings (steps are sequentially consistent), log lines, assembly (the
-- context switch, interrupt entry, boot code), the device drivers, the logging and the panic
-- handlers, which are input and output. Of paging, global_pages.rs is not modelled, nor CR3; a log of
-- flushed addresses stands for the TLB of the CPU that writes. The theorems on the first-fit allocator are for its bitmap
-- and its lowest level. The calls of a unified allocation hold its lock from beginning to end, and
-- what holds the `Arc` of a shared backing is left to the interface `Memory`. The heap
-- (memory/kernel_heap.rs), the tables of descriptors, what sync/promise.rs builds on its cell
-- (Promise), the waiting loops of sync/hspin.rs and the fixed CPU-local values
-- (multitasking/fixedcpulocal.rs) are not modelled either.
mod Base
pub mod Physical
pub mod Paging
pub mod Interruptions
pub mod Scheduler
pub mod Sync
pub mod Unified
pub mod Waitlist
pub mod Descriptors
pub mod CpuLocal
