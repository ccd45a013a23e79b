-- ===== src/Paging/Locked.antt =====
-- kernel/rust/src/memory/paging/api.rs: a page allocator with its count of users, the guard that writes
-- to it, and `PageAllocation`, the handle to an allocation. A call that takes the lock of the allocator
-- holds it to the end, and the allocator is passed on. The log of flushed addresses stands for the TLB
-- (arch/x86_64.rs). `canonical_addr` and `is_canonical` are the x86_64 crate's.
pub mod Handles
pub mod Below
pub mod Flush
pub mod Count
use cookie_os.Base.{
  ℕ, ◌+◌, ◌-◌, ◌%◌, ◌^◌, Bool, true, false, ltb, leb, ◌==◌, if◌then◌else◌, Option, none, some, List,
  [], ◌∷◌, ◌++◌, Outcome, ok, ◌>>=◌, ◌>>◌, assert,
}
use cookie_os.Paging.{is_usize}
use cookie_os.Paging.AlignedAddress as Address
use cookie_os.Paging.Flags.{PageFlags}
use cookie_os.Paging.Strategy.{PageAllocationStrategy}
use cookie_os.Paging.Allocations.{
  page, sub_table, PAllocItems, no_items, item_then, PartialPageAllocation, partial, start_addr,
  end_addr, size,
}
use cookie_os.Paging.Interface.{PageFrameAllocator}
use cookie_os.Paging.FirstFit.{Generics, MlffAllocator}
use cookie_os.Paging.FirstFit.Search.{allocate, allocate_at}
use cookie_os.Paging.FirstFit.Release.{deallocate}
use cookie_os.Paging.Mapping.{Foreach, set_base_addr, set_absent}
use cookie_os.Paging.Split.{Splitter, split_alloc_inner}

pub record LpawgOptions : Type 0 where
  pub auto_flush_tlb : Bool
  pub is_global_page : Bool

-- `LPAWGOptions::new_default`
abbrev pub new_default : LpawgOptions
new_default = record { auto_flush_tlb = false; is_global_page = false }

pub record LpaMetadata : Type 0 where
  pub offset : ℕ
  pub default_options : LpawgOptions

-- The x86_64 crate.
pub record Addresses : Type 0 where
  pub canonical_addr : ℕ → ℕ
  pub is_canonical : ℕ → Bool

-- What a mapping, an absent mapping and a split do at the level below.
pub record LevelBelow (pfa : PageFrameAllocator) : Type 0 where
  pub map_base : (is_global_page : Bool) → (base_addr : ℕ) → PageFlags → Foreach pfa
  pub map_absent : (held : ℕ) → Foreach pfa
  pub split : Splitter pfa

module _ (addresses : Addresses) where
  -- `call_invlpg_recursive`, as the addresses that it flushes, in order.
  unfoldable mutual
    pub flush_addrs : (voffset : ℕ) → PartialPageAllocation → Outcome (List ℕ)
    flush_addrs voffset (partial items page_size) = flush_items voffset items

    pub flush_items : (voffset : ℕ) → PAllocItems → Outcome (List ℕ)
    flush_items voffset no_items = ok []
    flush_items voffset (item_then (page index offset) items) = do
      assert (addresses.is_canonical (voffset + offset))
      rest ← flush_items voffset items
      ok ((voffset + offset) ∷ rest)
    flush_items voffset (item_then (sub_table index offset inner) items) = do
      first ← flush_addrs (voffset + offset) inner
      rest ← flush_items voffset items
      ok (first ++ rest)

  -- `inval_tlb_pg`; the other two arguments are not used.
  unfoldable pub inval_tlb_pg : PartialPageAllocation → (voffset : ℕ) → Outcome (List ℕ)
  unfolding flush_addrs start_addr end_addr
  inval_tlb_pg allocation voffset = do
    assert (is_usize (start_addr allocation + voffset))
    assert (is_usize (end_addr allocation + voffset))
    assert (leb (start_addr allocation) (end_addr allocation))
    flush_addrs (start_addr allocation + voffset) allocation

module _ (g : Generics) where
  -- `LPAInternal`, with the log of flushed addresses.
  pub record LockedPageAllocator : Type 0 where
    pub alloc : MlffAllocator g
    pub meta : LpaMetadata
    pub active_count : ℕ
    pub flushed : List ℕ

  unfoldable pub new_locked : MlffAllocator g → LpaMetadata → LockedPageAllocator
  new_locked alloc meta = record { alloc = alloc; meta = meta; active_count = 0; flushed = [] }

  -- `fetch_add`, `fetch_sub`, on 16 bits
  unfoldable pub _begin_active : LockedPageAllocator → LockedPageAllocator
  _begin_active lpa = record lpa { active_count = (lpa.active_count + 1) % 2 ^ 16 }

  unfoldable pub _end_active : LockedPageAllocator → LockedPageAllocator
  _end_active lpa = record lpa { active_count = (lpa.active_count + (2 ^ 16 - 1)) % 2 ^ 16 }

  -- The options of a guard from `write_when_active`.
  unfoldable pub write_options : LockedPageAllocator → LpawgOptions
  write_options lpa = record lpa.meta.default_options { auto_flush_tlb = ltb 0 lpa.active_count }

  module _ (addresses : Addresses) (below : LevelBelow g.st) where
    -- The start of the allocation is worked out, with the assertion of a debug build, and not used.
    unfoldable pub invalidate_tlb :
        LockedPageAllocator → PartialPageAllocation → (voffset : ℕ) → Outcome LockedPageAllocator
    unfolding inval_tlb_pg start_addr Address.new
    invalidate_tlb lpa allocation voffset = do
      assert (is_usize (start_addr allocation + voffset))
      vmem_offset ← Address.new (addresses.canonical_addr (start_addr allocation + voffset))
      addrs ← inval_tlb_pg addresses allocation voffset
      ok (record lpa { flushed = lpa.flushed ++ addrs })

    -- `if self.options.auto_flush_tlb { self.invalidate_tlb(allocation) }` of the guard
    unfoldable pub flush_if_active :
        LpawgOptions
        → LockedPageAllocator
        → PartialPageAllocation
        → (voffset : ℕ) → Outcome LockedPageAllocator
    unfolding invalidate_tlb
    flush_if_active options lpa allocation voffset =
        if options.auto_flush_tlb then invalidate_tlb lpa allocation voffset else ok lpa

    -- The guard's operations, with the guard's options, on the allocation inside a handle and the
    -- offset in its metadata.
    unfoldable pub guard_dealloc :
        LpawgOptions
        → LockedPageAllocator
        → PartialPageAllocation
        → (voffset : ℕ) → Outcome LockedPageAllocator
    unfolding deallocate flush_if_active
    guard_dealloc options lpa allocation voffset = do
      alloc ← deallocate g lpa.alloc allocation
      flush_if_active options (record lpa { alloc = alloc }) allocation voffset

    unfoldable pub guard_set_base_addr :
        LpawgOptions
        → LockedPageAllocator
        → PartialPageAllocation
        → (voffset base_addr : ℕ) → PageFlags
        → Outcome LockedPageAllocator
    unfolding set_base_addr flush_if_active
    guard_set_base_addr options lpa allocation voffset base_addr flags = do
      let is_global_page = options.is_global_page
      alloc ←
          set_base_addr g (below.map_base is_global_page base_addr flags) is_global_page lpa.alloc
            allocation base_addr flags
      flush_if_active options (record lpa { alloc = alloc }) allocation voffset

    unfoldable pub guard_set_absent :
        LpawgOptions
        → LockedPageAllocator
        → PartialPageAllocation
        → (voffset held : ℕ) → Outcome LockedPageAllocator
    unfolding set_absent flush_if_active
    guard_set_absent options lpa allocation voffset held = do
      alloc ← set_absent g (below.map_absent held) lpa.alloc allocation held
      flush_if_active options (record lpa { alloc = alloc }) allocation voffset

    unfoldable pub guard_split :
        LockedPageAllocator
        → PartialPageAllocation
        → (mid : ℕ) → Outcome (LockedPageAllocator × PartialPageAllocation × PartialPageAllocation)
    unfolding split_alloc_inner
    guard_split lpa allocation mid = do
      (alloc, lhs, rhs) ← split_alloc_inner g below.split lpa.alloc allocation mid
      ok (record lpa { alloc = alloc }, lhs, rhs)

  unfoldable pub guard_allocate :
      LockedPageAllocator
      → (size : ℕ) → List PageAllocationStrategy
      → Outcome (LockedPageAllocator × Option PartialPageAllocation)
  unfolding allocate
  guard_allocate lpa size alloc_strat = do
    (alloc, allocation) ← allocate g lpa.alloc size alloc_strat
    ok (record lpa { alloc = alloc }, allocation)

  -- The address is relative to the table.
  unfoldable pub guard_allocate_at :
      LockedPageAllocator
      → (addr size : ℕ) → Outcome (LockedPageAllocator × Option PartialPageAllocation)
  unfolding allocate_at
  guard_allocate_at lpa addr size = do
    assert (leb lpa.meta.offset addr)
    (alloc, allocation) ← allocate_at g lpa.alloc (addr - lpa.meta.offset) size
    ok (record lpa { alloc = alloc }, allocation)

  module _ (addresses : Addresses) (below : LevelBelow g.st) where
    -- A call of a method of the guard.
    pub data GuardCall : Type 0 where
      set_base_addr_call : PartialPageAllocation → (voffset base_addr : ℕ) → PageFlags → GuardCall
      set_absent_call : PartialPageAllocation → (voffset held : ℕ) → GuardCall
      dealloc_call : PartialPageAllocation → (voffset : ℕ) → GuardCall
      split_call : PartialPageAllocation → (mid : ℕ) → GuardCall
      allocate_call : (size : ℕ) → List PageAllocationStrategy → GuardCall
      allocate_at_call : (addr size : ℕ) → GuardCall

    -- What the call makes of the table; allocations that it returns are left out.
    unfoldable pub run_call :
        LpawgOptions → LockedPageAllocator → GuardCall → Outcome LockedPageAllocator
    unfolding guard_set_base_addr guard_set_absent guard_dealloc guard_split guard_allocate
        guard_allocate_at
    run_call options lpa (set_base_addr_call allocation voffset base_addr flags) =
        guard_set_base_addr addresses below options lpa allocation voffset base_addr flags
    run_call options lpa (set_absent_call allocation voffset held) =
        guard_set_absent addresses below options lpa allocation voffset held
    run_call options lpa (dealloc_call allocation voffset) =
        guard_dealloc addresses below options lpa allocation voffset
    run_call options lpa (split_call allocation mid) = do
      (lpa, lhs, rhs) ← guard_split addresses below lpa allocation mid
      ok lpa
    run_call options lpa (allocate_call size alloc_strat) = do
      (lpa, allocation) ← guard_allocate lpa size alloc_strat
      ok lpa
    run_call options lpa (allocate_at_call addr size) = do
      (lpa, allocation) ← guard_allocate_at lpa addr size
      ok lpa
