-- ===== src/Paging/Entries.antt =====
-- kernel/rust/src/memory/paging/arch/x86_64.rs, `X64PageTable`: page-table entries of x86-64. The
-- entries, their flags and PhysAddr are those of the x86_64 crate, a parameter with the behaviour that
-- its documentation gives. The build features `per_page_NXE_bit` and `page_global_bit` are Booleans.
-- Logging is left out, with the address computed for it.
pub mod Laws
use cookie_os.Base.{
  ℕ, zero, suc, ◌+◌, ◌-◌, ◌*◌, ◌/◌, ◌%◌, ◌^◌, ◌<◌, ◌≡◌, ◌⊎◌, inl, inr, Bool, true, false, not, ltb,
  ◌==◌, ◌&&◌, ◌||◌, if◌then◌else◌, update, Outcome, ok, ◌>>=◌, ◌>>◌, assert,
}
use cookie_os.Paging.Flags.{PageFlags}
use cookie_os.Paging.Interface.{PageTable}

-- The flags of PageTableFlags that the code names.
pub data Bit : Type 0 where
  present writable user_accessible write_through no_cache huge_page global bit_9 no_execute : Bit

abbrev pub bit_number : Bit → ℕ
bit_number present = 0
bit_number writable = 1
bit_number user_accessible = 2
bit_number write_through = 3
bit_number no_cache = 4
bit_number huge_page = 7
bit_number global = 8
bit_number bit_9 = 9
bit_number no_execute = 63

abbrev pub same_bit : Bit → Bit → Bool
same_bit a b = bit_number a == bit_number b

-- The x86_64 crate: sets of flags, and entries of 64 bits.
pub record Crate : Type 1 where
  pub Flags : Type 0
  pub no_flags : Flags
  pub contains : Flags → Bit → Bool
  pub insert : Bit → Flags → Flags
  pub remove : Bit → Flags → Flags
  pub Entry : Type 0
  pub raw : Entry → ℕ
  pub from_raw : ℕ → Entry
  pub is_unused : Entry → Bool
  pub set_unused : Entry → Entry
  pub flags : Entry → Flags
  pub addr : Entry → ℕ
  -- `PhysAddr::new` and `set_addr` panic for an address that no entry can hold.
  pub set_addr : Entry → ℕ → Flags → Outcome Entry
  pub set_flags : Entry → Flags → Entry

-- An address that an entry can hold: 52 bits, in whole frames of 4 KiB.
abbrev pub IsFrame : ℕ → Type 0
IsFrame a = (a < 2 ^ 52) × (a % 4096 ≡ 0)

pub record CrateLaws (c : Crate) : Type 0 where
  pub contains-no_flags : (b : Bit) → c.contains c.no_flags b ≡ false
  pub contains-insert :
      (a b : Bit) (f : c.Flags) → c.contains (c.insert a f) b ≡ (same_bit a b || c.contains f b)
  pub contains-remove :
      (a b : Bit) (f : c.Flags)
      → c.contains (c.remove a f) b ≡ (not (same_bit a b) && c.contains f b)
  pub raw-from_raw : (n : ℕ) → n < 2 ^ 64 → c.raw (c.from_raw n) ≡ n
  pub contains-present : (e : c.Entry) → c.contains (c.flags e) present ≡ (c.raw e % 2 == 1)
  pub is_unused-raw : (e : c.Entry) → c.is_unused e ≡ (c.raw e == 0)
  pub raw-set_unused : (e : c.Entry) → c.raw (c.set_unused e) ≡ 0
  pub set_addr_lem :
      (e : c.Entry) (a : ℕ) (f : c.Flags)
      → IsFrame a
      → (e' : c.Entry) × (c.set_addr e a f ≡ ok e')
        × (c.addr e' ≡ a)
        × ((b : Bit) → c.contains (c.flags e') b ≡ c.contains f b)
  pub flags-set_flags :
      (e : c.Entry) (f : c.Flags) (b : Bit)
      → c.contains (c.flags (c.set_flags e f)) b ≡ c.contains f b
  pub addr-set_flags : (e : c.Entry) (f : c.Flags) → c.addr (c.set_flags e f) ≡ c.addr e

module _ (c : Crate) where
  insert_if : Bool → Bit → c.Flags → c.Flags
  insert_if add b f = if add then c.insert b f else f

  remove_if : Bool → Bit → c.Flags → c.Flags
  remove_if remove b f = if remove then c.remove b f else f

module _ (c : Crate) (per_page_nxe_bit page_global_bit : Bool) where
  unfoldable pub default_flags : c.Flags
  unfolding insert_if
  default_flags = insert_if c per_page_nxe_bit no_execute c.no_flags

  unfoldable pub calc_flags : (include_non_transitive : Bool) → c.Flags → PageFlags → c.Flags
  unfolding insert_if remove_if
  calc_flags include_non_transitive previous add =
      let f = insert_if c add.tflags.user_readable user_accessible previous in
      let f = insert_if c add.tflags.writeable writable f in
      let f = remove_if c (per_page_nxe_bit && add.tflags.executable) no_execute f in
      let g = insert_if c add.mflags.pinned bit_9 f in
      let g = insert_if c add.mflags.cache_disable no_cache g in
      let g = insert_if c add.mflags.cache_write_through write_through g in
      let g = insert_if c (page_global_bit && add.mflags.global) global g in
      if include_non_transitive then g else f

  unfoldable pub deser_flags : c.Flags → PageFlags
  deser_flags f = record {
    tflags = record {
      user_readable = c.contains f user_accessible;
      writeable = c.contains f writable;
      executable = not (c.contains f no_execute);
    };
    mflags = record {
      global = c.contains f global;
      pinned = c.contains f bit_9;
      cache_disable = c.contains f no_cache;
      cache_write_through = c.contains f write_through;
    };
  }

  -- An array of 512 entries; reading or writing one past the end panics.
  abbrev pub PageTableEntries : Type 0
  PageTableEntries = ℕ → c.Entry

  abbrev pub npages : ℕ
  npages = 512

  unfoldable pub change_entry :
      PageTableEntries → ℕ → (c.Entry → Outcome c.Entry) → Outcome PageTableEntries
  change_entry table idx change = do
    assert (ltb idx npages)
    e ← change (table idx)
    ok (update table idx e)

  unfoldable pub new : PageTableEntries
  new idx = c.from_raw 0

  unfoldable pub is_unused : PageTableEntries → ℕ → Outcome Bool
  is_unused table idx = do assert (ltb idx npages); ok (c.is_unused (table idx))

  count_used : PageTableEntries → ℕ → ℕ
  count_used table zero = 0
  count_used table (suc n) = count_used table n + (if c.is_unused (table n) then 0 else 1)

  unfoldable pub get_num_pages_used : PageTableEntries → ℕ
  unfolding count_used
  get_num_pages_used table = count_used table npages

  unfoldable pub get_entry : PageTableEntries → ℕ → Outcome ((ℕ × PageFlags) ⊎ ℕ)
  unfolding deser_flags
  get_entry table idx = do
    assert (ltb idx npages)
    let e = table idx
    ok (
        if c.contains (c.flags e) present
        then inl (c.addr e, deser_flags (c.flags e))
        else inr (c.raw e / 2))

  unfoldable pub set_subtable_addr : PageTableEntries → ℕ → ℕ → Outcome PageTableEntries
  unfolding default_flags change_entry
  set_subtable_addr table idx phys_addr =
      change_entry table idx (λ e. c.set_addr e phys_addr (c.insert present default_flags))

  unfoldable pub add_subtable_flags :
      Bool → PageTableEntries → ℕ → PageFlags → Outcome PageTableEntries
  unfolding calc_flags change_entry
  add_subtable_flags include_non_transitive table idx flags =
      change_entry table idx
        (λ e. ok (c.set_flags e (calc_flags include_non_transitive (c.flags e) flags)))

  -- The huge-page flag has another meaning in a table of level 1.
  unfoldable pub set_huge_addr :
      (level : ℕ) → PageTableEntries → ℕ → ℕ → PageFlags → Outcome PageTableEntries
  unfolding default_flags calc_flags change_entry insert_if
  set_huge_addr level table idx physaddr flags =
      let start = insert_if c (not (level == 1)) huge_page (c.insert present default_flags) in
      change_entry table idx (λ e. c.set_addr e physaddr (calc_flags true start flags))

  -- A left shift by one keeps 64 bits: `checked_shl` only checks the shift amount.
  unfoldable pub set_absent : PageTableEntries → ℕ → ℕ → Outcome PageTableEntries
  unfolding change_entry
  set_absent table idx held =
      let shifted = held * 2 % 2 ^ 64 in
      change_entry table idx (λ e. ok (c.from_raw (shifted - shifted % 2)))

  unfoldable pub set_empty : PageTableEntries → ℕ → Outcome PageTableEntries
  unfolding change_entry
  set_empty table idx = change_entry table idx (λ e. ok (c.set_unused e))

  -- The implementation of the trait for a level.
  unfoldable pub x64_page_table : ℕ → PageTable
  unfolding new is_unused get_num_pages_used get_entry set_subtable_addr add_subtable_flags
      set_huge_addr set_absent set_empty
  x64_page_table level = record {
    Table = PageTableEntries;
    npages = npages;
    new = ok new;
    is_unused = is_unused;
    get_num_pages_used = λ table. ok (get_num_pages_used table);
    get_entry = get_entry;
    set_subtable_addr = set_subtable_addr;
    add_subtable_flags = add_subtable_flags;
    set_huge_addr = set_huge_addr level;
    set_absent = set_absent;
    set_empty = set_empty;
  }
