-- ===== src/Paging/Entries/Laws.antt =====
-- kernel/rust/src/memory/paging/arch/x86_64.rs: what is read back from an entry after it was written,
-- and the laws of a page table.
use cookie_os.Base.{
  ℕ, ◌-◌, ◌*◌, ◌/◌, ◌%◌, ◌^◌, ◌<◌, ◌≡◌, ◌≢◌, ◌∙◌, lt→ltb, refl, sym, ap, inl, inr, Bool, true,
  false, not, ◌==◌, ◌&&◌, ◌||◌, update, ok, arith,
}
use cookie_os.Paging.Flags.{PageFlags}
use cookie_os.Paging.Interface.{PageTableLaws, MappingLaws, reserved_data}
use cookie_os.Paging.Entries.{
  Crate, CrateLaws, IsFrame, Bit, present, writable, user_accessible, write_through, no_cache,
  global, bit_9, no_execute, deser_flags, calc_flags, default_flags, insert_if, remove_if, same_bit,
  huge_page, change_entry, PageTableEntries, new, get_entry, set_huge_addr, set_absent, set_empty,
  x64_page_table, is_unused,
}

and_false : (b : Bool) → (b && false) ≡ false
and_false true = refl
and_false false = refl

not_and : (a b : Bool) → not (a && not b) ≡ (not a || b)
not_and true true = refl
not_and true false = refl
not_and false b = refl

pub ==_refl : (n : ℕ) → (n == n) ≡ true
==_refl n = ground arith

pub not-== : (i j : ℕ) → j ≢ i → (i == j) ≡ false
not-== i j h = ground arith

and_true : (b : Bool) → (b && true) ≡ b
and_true true = refl
and_true false = refl

or_false : (b : Bool) → (b || false) ≡ b
or_false true = refl
or_false false = refl

pub double_not : (b : Bool) → not (not b) ≡ b
double_not true = refl
double_not false = refl

absent_word : ℕ → ℕ
absent_word held = held * 2 % 2 ^ 64 - held * 2 % 2 ^ 64 % 2

half_word : (held : ℕ) → absent_word held / 2 ≡ held % 2 ^ 63
unfolding absent_word
half_word held = omega arith

absent_word-even : (held : ℕ) → (absent_word held % 2 == 1) ≡ false
unfolding absent_word
absent_word-even held = ground arith

absent_word-lt : (held : ℕ) → absent_word held < 2 ^ 64
unfolding absent_word
absent_word-lt held = omega arith

ruleset flag_laws = (and_false, and_true, or_false)

module _ (c : Crate) (laws : CrateLaws c) where
  contains-insert_if :
      (add : Bool) (a b : Bit) (f : c.Flags)
      → c.contains (insert_if c add a f) b ≡ ((add && same_bit a b) || c.contains f b)
  unfolding insert_if
  contains-insert_if true a b f = laws.contains-insert a b f
  contains-insert_if false a b f = refl

  contains-remove_if :
      (remove : Bool) (a b : Bit) (f : c.Flags)
      → c.contains (remove_if c remove a f) b ≡ (not (remove && same_bit a b) && c.contains f b)
  unfolding remove_if
  contains-remove_if true a b f = laws.contains-remove a b f
  contains-remove_if false a b f = refl

module _ (c : Crate) (laws : CrateLaws c) (per_page_nxe_bit page_global_bit : Bool) where
  -- What a mapping with these flags reads back as on a build with the given features.
  unfoldable pub as_mapped : PageFlags → PageFlags
  as_mapped f = record {
    tflags = record {
      user_readable = f.tflags.user_readable;
      writeable = f.tflags.writeable;
      executable = not per_page_nxe_bit || f.tflags.executable;
    };
    mflags = record {
      global = page_global_bit && f.mflags.global;
      pinned = f.mflags.pinned;
      cache_disable = f.mflags.cache_disable;
      cache_write_through = f.mflags.cache_write_through;
    };
  }

  -- Which flags a new mapping has.
  mapped_flags : (huge : Bool) → PageFlags → Bit → Bool
  mapped_flags huge add present = true
  mapped_flags huge add writable = add.tflags.writeable
  mapped_flags huge add user_accessible = add.tflags.user_readable
  mapped_flags huge add write_through = add.mflags.cache_write_through
  mapped_flags huge add no_cache = add.mflags.cache_disable
  mapped_flags huge add huge_page = huge
  mapped_flags huge add global = page_global_bit && add.mflags.global
  mapped_flags huge add bit_9 = add.mflags.pinned
  mapped_flags huge add no_execute = per_page_nxe_bit && not add.tflags.executable

  new_flags : (huge : Bool) → PageFlags → c.Flags
  new_flags huge add =
      calc_flags c per_page_nxe_bit page_global_bit true
        (insert_if c huge huge_page
          (c.insert present (default_flags c per_page_nxe_bit page_global_bit)))
        add

  -- The same, as the steps of `calc_flags` add and remove them.
  flags_by_steps : (huge : Bool) → PageFlags → Bit → Bool
  flags_by_steps huge add b =
      let steps =
        (huge && same_bit huge_page b)
        || (same_bit present b || ((per_page_nxe_bit && same_bit no_execute b) || false)) in
      let steps = (add.tflags.user_readable && same_bit user_accessible b) || steps in
      let steps = (add.tflags.writeable && same_bit writable b) || steps in
      let steps =
        not (per_page_nxe_bit && add.tflags.executable && same_bit no_execute b) && steps in
      let steps = (add.mflags.pinned && same_bit bit_9 b) || steps in
      let steps = (add.mflags.cache_disable && same_bit no_cache b) || steps in
      let steps = (add.mflags.cache_write_through && same_bit write_through b) || steps in
      (page_global_bit && add.mflags.global && same_bit global b) || steps

  contains-new_flags :
      (huge : Bool) (add : PageFlags) (b : Bit)
      → c.contains (new_flags huge add) b ≡ flags_by_steps huge add b
  unfolding new_flags flags_by_steps calc_flags default_flags
  contains-new_flags huge add b =
      simp
        (
          laws.contains-no_flags,
          laws.contains-insert,
          contains-insert_if c laws,
          contains-remove_if c laws,
        )
        refl

  steps-mapped_flags :
      (huge : Bool) (add : PageFlags) (b : Bit)
      → flags_by_steps huge add b ≡ mapped_flags huge add b
  unfolding flags_by_steps mapped_flags
  steps-mapped_flags huge add present = simp flag_laws (ground arith)
  steps-mapped_flags huge add writable = simp flag_laws (ground arith)
  steps-mapped_flags huge add user_accessible = simp flag_laws (ground arith)
  steps-mapped_flags huge add write_through = simp flag_laws (ground arith)
  steps-mapped_flags huge add no_cache = simp flag_laws (ground arith)
  steps-mapped_flags huge add huge_page = simp flag_laws (ground arith)
  steps-mapped_flags huge add global = simp flag_laws (ground arith)
  steps-mapped_flags huge add bit_9 = simp flag_laws (ground arith)
  steps-mapped_flags huge add no_execute = simp flag_laws (ground arith)

  -- For an index below 512 and an address of a frame, mapping the entry returns; it then reads back as
  -- present, with the address and, as far as the build has the features, the flags, and every other
  -- entry reads as before.
  pub get_entry-set_huge_addr :
      (level : ℕ) (table : PageTableEntries c per_page_nxe_bit page_global_bit) (idx physaddr : ℕ)
      (flags : PageFlags)
      → idx < 512
      → IsFrame physaddr
      → (t : PageTableEntries c per_page_nxe_bit page_global_bit) × (set_huge_addr c
            per_page_nxe_bit page_global_bit level table idx physaddr flags
          ≡ ok t)
        × (get_entry c per_page_nxe_bit page_global_bit t idx
            ≡ ok (inl (physaddr, as_mapped flags)))
        × ((j : ℕ)
            → j ≢ idx
            → get_entry c per_page_nxe_bit page_global_bit t j
              ≡ get_entry c per_page_nxe_bit page_global_bit table j)
  unfolding new_flags mapped_flags as_mapped set_huge_addr get_entry change_entry deser_flags
  get_entry-set_huge_addr level table idx physaddr flags in_range frame =
      let huge = not (level == 1) in
      let (e, f, g, h) = laws.set_addr_lem (table idx) physaddr (new_flags huge flags) frame in
      let r : ((b : Bit) → c.contains (c.flags e) b ≡ mapped_flags huge flags b) =
        λ b. h b ∙ contains-new_flags huge flags b ∙ steps-mapped_flags huge flags b in
      (
        update table idx e,
        rw (lt→ltb idx 512 in_range, f) refl,
        simp (lt→ltb idx 512 in_range, ==_refl, r, g, not_and) refl,
        λ j other. rw (not-== idx j other) refl,
      )

  -- For an index below 512 and any data, marking the entry absent returns, without a panic; it then
  -- reads back as absent with the lower 63 bits of the data, and every other entry reads as before.
  pub get_entry-set_absent :
      (table : PageTableEntries c per_page_nxe_bit page_global_bit) (idx held : ℕ)
      → idx < 512
      → (t : PageTableEntries c per_page_nxe_bit page_global_bit) × (set_absent c per_page_nxe_bit
            page_global_bit table idx held
          ≡ ok t)
        × (get_entry c per_page_nxe_bit page_global_bit t idx ≡ ok (inr (held % 2 ^ 63)))
        × ((j : ℕ)
            → j ≢ idx
            → get_entry c per_page_nxe_bit page_global_bit t j
              ≡ get_entry c per_page_nxe_bit page_global_bit table j)
  unfolding set_absent get_entry change_entry absent_word
  get_entry-set_absent table idx held in_range =
      let r = laws.raw-from_raw (absent_word held) (absent_word-lt held) in
      (
        update table idx (c.from_raw (absent_word held)),
        rw (lt→ltb idx 512 in_range) refl,
        simp
            (
              lt→ltb idx 512 in_range,
              ==_refl,
              laws.contains-present,
              r,
              absent_word-even,
              half_word,
            )
            refl,
        λ j other. rw (not-== idx j other) refl,
      )

  -- The table of any level is a page table as the allocator expects it.
  unfoldable pub x64_page_table_laws :
      (level : ℕ) → PageTableLaws (x64_page_table c per_page_nxe_bit page_global_bit level)
  unfolding x64_page_table absent_word new is_unused set_absent set_empty change_entry
  x64_page_table_laws level = record {
    used = λ t idx. not (c.is_unused (t idx));
    new_unused = (
      λ idx. c.from_raw 0,
      refl,
      λ idx. rw (laws.is_unused-raw (c.from_raw 0), laws.raw-from_raw 0 (omega arith)) refl,
    );
    is_unused-used =
        λ t idx h. rw (lt→ltb idx 512 h) (ap ok (sym (double_not (c.is_unused (t idx)))));
    reserve-used = λ t idx h.
        let e = c.from_raw (absent_word reserved_data) in
        (
          update t idx e,
          rw (lt→ltb idx 512 h) refl,
          rw
              (
                ==_refl idx,
                laws.is_unused-raw e,
                laws.raw-from_raw (absent_word reserved_data) (omega arith),
              )
              refl,
          λ j other. rw (not-== idx j other) refl,
        );
    set_empty-unused = λ t idx h.
        let e = c.set_unused (t idx) in
        (
          update t idx e,
          rw (lt→ltb idx 512 h) refl,
          rw (==_refl idx, laws.is_unused-raw e, laws.raw-set_unused (t idx)) refl,
          λ j other. rw (not-== idx j other) refl,
        );
  }

  unfoldable pub x64_mapping_laws :
      (level : ℕ) → MappingLaws (x64_page_table c per_page_nxe_bit page_global_bit level)
  unfolding x64_page_table
  x64_mapping_laws level = record {
    as_read = as_mapped;
    get_entry-set_huge_addr =
        λ t idx physaddr flags h a b. get_entry-set_huge_addr level t idx physaddr flags h (a, b);
  }
