-- ===== src/Paging/FirstFit/Lowest.antt =====
-- kernel/rust/src/memory/paging/allocators/firstfit.rs at the lowest level, where entries are pages and
-- there are no tables below: its invariant, and one entry at a time. The page table is any that keeps
-- the laws and has 512 entries.
pub mod Runs
mod Order
pub mod Placement
pub mod Bounds
pub mod Allocating
pub mod AllocatingAt
use mathlib.Core.Path.{subst}
use cookie_os.Base.{
  ℕ, ◌-◌, ◌*◌, ◌<◌, ◌≡◌, ◌≢◌, ◌∙◌, refl, sym, ap, inl, inr, Bool, true, false, not, ◌==◌, ◌&&◌,
  ◌||◌, if◌then◌else◌, Bool-cases, none, ok, arith, lt→ltb, ==_iff,
}
use cookie_os.Paging.Allocations.{page}
use cookie_os.Paging.Interface.{PageTable, PageTableLaws, reserve}
use cookie_os.Paging.FirstFit.{
  Generics, MlffAllocator, refresh_availability, suballocator_at, page_size, entry_empty,
  entry_full,
}
use cookie_os.Paging.FirstFit.Bitmap.{availability, HasBytes, get_availability-set_availability}
use cookie_os.Paging.FirstFit.Allocate.{alloc_entry}
use cookie_os.Paging.FirstFit.Release.{deallocate_item}
use cookie_os.Paging.FirstFit.Levels.{no_deeper}

abbrev pub lowest : PageTable → (ℕ → ℕ) → Generics
lowest pt heap = record {
  st = no_deeper;
  pt = pt;
  subtables = false;
  hugepages = true;
  heap = heap;
}

abbrev pub availability_of : Bool → ℕ
availability_of used = if used then 3 else 0

availability_of-lt : (used : Bool) → availability_of used < 4
availability_of-lt true = omega arith
availability_of-lt false = omega arith

entry_code : (used : Bool) → (if not used then entry_empty else entry_full) ≡ availability_of used
entry_code true = refl
entry_code false = refl

module _ (pt : PageTable) (laws : PageTableLaws pt) (heap : ℕ → ℕ) where
  -- The page table says which entries are in use, and the bitmap agrees with it.
  pub record IsLowest (self : MlffAllocator (lowest pt heap)) : Type 0 where
    pub npages_512 : pt.npages ≡ 512
    pub has_bytes : HasBytes self
    pub no_tables : (i : ℕ) → self.suballocators i ≡ none
    pub in_step :
        (i : ℕ) → i < 512 → availability self i ≡ availability_of (laws.used self.page_table i)

  abbrev pub is_used : MlffAllocator (lowest pt heap) → ℕ → Bool
  is_used self i = laws.used self.page_table i

  -- After a change of one entry of the page table, a refresh of that entry brings the bitmap in step.
  pub refresh-IsLowest :
      (self : MlffAllocator (lowest pt heap)) (table : pt.Table) (idx : ℕ)
      → IsLowest self
      → idx < 512
      → ((j : ℕ) → j ≢ idx → laws.used table j ≡ is_used self j)
      → (after : MlffAllocator (lowest pt heap)) × (refresh_availability
            (lowest pt heap)
            (record self { page_table = table })
            idx
          ≡ ok after)
        × IsLowest after
        × (after.page_table ≡ table)
  unfolding refresh_availability suballocator_at
  refresh-IsLowest self table idx inv h others =
      let changed = record self { page_table = table } in
      let value = availability_of (laws.used table idx) in
      let (after, e, bytes, read, same_table, same_subs) =
        get_availability-set_availability {g = lowest pt heap} changed idx value h
          (availability_of-lt (laws.used table idx)) inv.has_bytes in
      (
        after,
        rw
            (
              lt→ltb idx 512 h,
              inv.no_tables idx,
              laws.is_unused-used table idx (subst (λ n. idx < n) (sym inv.npages_512) h),
              entry_code (laws.used table idx),
            )
            e,
        record {
          npages_512 = inv.npages_512;
          has_bytes = bytes;
          no_tables = λ i. ap (λ f. f i) same_subs ∙ inv.no_tables i;
          in_step = λ i k. read i ∙ elim (Bool-cases (i == idx)) [
            | inl f ↦ rw (f, same_table, (==_iff i idx).0 f) refl
            | inr f ↦ rw (f, same_table, others i (ground arith)) (inv.in_step i k)
          ];
        },
        same_table,
      )

  -- A free entry is taken: the page is reserved, the bitmap follows, no other entry changes.
  pub claim_entry :
      (self : MlffAllocator (lowest pt heap)) (start idx : ℕ)
      → IsLowest self
      → idx < 512
      → (taken : MlffAllocator (lowest pt heap)) × (after : MlffAllocator (lowest pt heap))
        × (alloc_entry (lowest pt heap) self start idx
            ≡ ok (taken, page idx ((idx - start) * 4096)))
        × (refresh_availability (lowest pt heap) taken idx ≡ ok after)
        × IsLowest after
        × ((j : ℕ) → is_used after j ≡ (j == idx || is_used self j))
  unfolding alloc_entry reserve page_size
  claim_entry self start idx inv h =
      let (table, e, now, others) =
        laws.reserve-used self.page_table idx (subst (λ n. idx < n) (sym inv.npages_512) h) in
      let (after, f, inv', same) = refresh-IsLowest self table idx inv h others in
      (
        record self { page_table = table },
        after,
        rw (e) refl,
        f,
        inv',
        λ j. ap (λ t. laws.used t j) same ∙ elim (Bool-cases (j == idx)) [
          | inl g ↦ rw (g, (==_iff j idx).0 g) now
          | inr g ↦ rw (g) (others j (ground arith))
        ],
      )

  -- Its counterpart: the page of an entry is cleared.
  pub clear_entry :
      (self : MlffAllocator (lowest pt heap)) (idx at : ℕ)
      → IsLowest self
      → idx < 512
      → (after : MlffAllocator (lowest pt heap)) × (deallocate_item
            (lowest pt heap)
            self
            (page idx at)
          ≡ ok after)
        × IsLowest after
        × ((j : ℕ) → is_used after j ≡ (not (j == idx) && is_used self j))
  unfolding deallocate_item
  clear_entry self idx at inv h =
      let (table, e, now, others) =
        laws.set_empty-unused self.page_table idx (subst (λ n. idx < n) (sym inv.npages_512) h) in
      let (after, f, inv', same) = refresh-IsLowest self table idx inv h others in
      (
        after,
        rw (e) f,
        inv',
        λ j. ap (λ t. laws.used t j) same ∙ elim (Bool-cases (j == idx)) [
          | inl g ↦ rw (g, (==_iff j idx).0 g) now
          | inr g ↦ rw (g) (others j (ground arith))
        ],
      )
