-- ===== src/Paging/Mapping/Runs.antt =====
-- kernel/rust/src/memory/paging/api.rs: how a run of pages of the lowest level is mapped.
use cookie_os.Base.{
  ℕ, zero, suc, ◌+◌, ◌-◌, ◌*◌, ◌%◌, ◌^◌, ◌≤◌, ◌≡◌, ◌≢◌, ◌∙◌, refl, ap, inl, inr, Bool, true, false,
  ◌==◌, ==_iff, Bool-cases, if◌then◌else◌, Outcome, ok, arith,
}
use cookie_os.Paging.Flags.{PageFlags}
use cookie_os.Paging.Interface.{PageTable, MappingLaws}
use cookie_os.Paging.FirstFit.{MlffAllocator}
use cookie_os.Paging.FirstFit.Levels.{no_deeper}
use cookie_os.Paging.FirstFit.Lowest.{lowest}
use cookie_os.Paging.FirstFit.Lowest.Runs.{pages_from, in_run}
use cookie_os.Paging.FirstFit.Lowest.Placement.{run_allocation}
use cookie_os.Paging.Mapping.{
  Foreach, foreach_entry, foreach_below, ppa_foreach, set_addr_inner, set_base_addr,
}

abbrev pub global_if : Bool → PageFlags → PageFlags
global_if is_global_page flags =
    if is_global_page
    then record flags { mflags = record flags.mflags { global = true } }
    else flags

in_run-nothing : (idx j : ℕ) → ¬ (in_run idx 0 j ≡ true)
in_run-nothing idx j h = ground arith

in_run-start : (idx count : ℕ) → in_run (idx + 1) count idx ≡ false
in_run-start idx count = ground arith

in_run-rest :
    (idx count j : ℕ)
    → in_run idx (suc count) j ≡ true
    → (j == idx) ≡ false
    → in_run (idx + 1) count j ≡ true
in_run-rest idx count j h k = ground arith

out_run-rest :
    (idx count j : ℕ) → in_run idx (suc count) j ≡ false → in_run (idx + 1) count j ≡ false
out_run-rest idx count j h = ground arith

out_run-other : (idx count j : ℕ) → in_run idx (suc count) j ≡ false → j ≢ idx
out_run-other idx count j h = ground arith

add_offset : (base at : ℕ) → base + (0 + at) ≡ base + at
add_offset base at = omega arith

module _ (pt : PageTable) (laws : MappingLaws pt) (heap : ℕ → ℕ) (below : Foreach no_deeper) where
  -- Where the entries of a run point afterwards.
  abbrev pub MapsRun : (before after : pt.Table) → (start idx count base : ℕ) → PageFlags → Type 0
  MapsRun before after start idx count base flags =
      ((j : ℕ)
        → in_run idx count j ≡ true
        → pt.get_entry after j ≡ ok (inl (base + (j - start) * 4096, laws.as_read flags)))
      × ((j : ℕ) → in_run idx count j ≡ false → pt.get_entry after j ≡ pt.get_entry before j)

  foreach_entry-MapsRun :
      (on_table : pt.Table → ℕ → ℕ → Outcome pt.Table) (table : pt.Table) (start idx count base : ℕ)
      (flags : PageFlags)
      → start ≤ idx
      → idx + count ≤ pt.npages
      → base % 4096 ≡ 0
      → base + (idx - start + count) * 4096 ≤ 2 ^ 52
      → (after : pt.Table) × (foreach_entry
            (lowest pt heap)
            below
            (λ ptable index offset. pt.set_huge_addr ptable index (base + offset) flags)
            on_table
            table
            (pages_from start idx count)
            0
          ≡ ok after)
        × MapsRun table after start idx count base flags
  unfolding foreach_entry pages_from
  foreach_entry-MapsRun on_table table start idx zero base flags h k b l =
      (table, refl, (λ j e. absurd (in_run-nothing idx j e), λ j e. refl))
  foreach_entry-MapsRun on_table table start idx (suc count) base flags h k b l =
      let at = (idx - start) * 4096 in
      let (between, e, now, others) =
        laws.get_entry-set_huge_addr table idx (base + (0 + at)) flags (omega arith) (omega arith)
          (omega arith) in
      let (after, f, (inside, outside)) =
        foreach_entry-MapsRun on_table between start (idx + 1) count base flags (omega arith)
          (omega arith) b (omega arith) in
      (
        after,
        rw (e) f,
        (
          λ j g. elim (Bool-cases (j == idx)) [
            | inl i ↦ rw ((==_iff j idx).0 i) (
                outside idx (in_run-start idx count)
                ∙ now
                ∙ ap (λ a. ok (inl (a, laws.as_read flags))) (add_offset base at))
            | inr i ↦ inside j (in_run-rest idx count j g i)
          ],
          λ j g. outside j (out_run-rest idx count j g) ∙ others j (out_run-other idx count j g),
        ),
      )

  foreach_below-pages_from :
      (self : MlffAllocator (lowest pt heap))
      (on_page on_table : pt.Table → ℕ → ℕ → Outcome pt.Table) (start idx count : ℕ)
      → foreach_below (lowest pt heap) below on_page on_table self (pages_from start idx count) 0
        ≡ ok self
  unfolding foreach_below pages_from
  foreach_below-pages_from self on_page on_table start idx zero = refl
  foreach_below-pages_from self on_page on_table start idx (suc count) =
      foreach_below-pages_from self on_page on_table start (idx + 1) count

  -- Setting the base address of an allocation of `count` pages from page `start` on, inside the table,
  -- to a frame below 2 ^ 52 with room for them, returns. Then page `start + k` of the allocation is
  -- mapped to the `k`-th frame from the base, with the flags as the table reads them back, and every
  -- other entry of the table reads as before.
  pub set_base_addr_lem :
      (self : MlffAllocator (lowest pt heap)) (start count base : ℕ) (is_global_page : Bool)
      (flags : PageFlags)
      → start + count ≤ pt.npages
      → base % 4096 ≡ 0
      → base + count * 4096 ≤ 2 ^ 52
      → (after : MlffAllocator (lowest pt heap)) × (set_base_addr
            (lowest pt heap)
            below
            is_global_page
            self
            (run_allocation start count)
            base
            flags
          ≡ ok after)
        × MapsRun self.page_table after.page_table start start count base
            (global_if is_global_page flags)
  unfolding set_base_addr set_addr_inner ppa_foreach
  set_base_addr_lem self start count base is_global_page flags h b l =
      let (after, e, maps) =
        foreach_entry-MapsRun
          (λ ptable index offset.
            pt.add_subtable_flags false ptable index (global_if is_global_page flags))
          self.page_table start start count base (global_if is_global_page flags) (omega arith) h b
          (omega arith) in
      (
        record self { page_table = after },
        rw (e) (
            foreach_below-pages_from (record self { page_table = after })
              (λ ptable index offset.
                pt.set_huge_addr ptable index (base + offset) (global_if is_global_page flags))
              (λ ptable index offset.
                pt.add_subtable_flags false ptable index (global_if is_global_page flags))
              start start count),
        maps,
      )
