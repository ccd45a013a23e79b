-- ===== src/Paging/Allocations.antt =====
-- kernel/rust/src/memory/paging/sealed.rs: what an allocation holds. An item is a whole page of this
-- level, or an allocation inside the table of the level below; the items are in the order of their
-- offsets. `PAllocItems` is the vector of items.
use cookie_os.Base.{ℕ, ◌+◌, ◌*◌, leb, if◌then◌else◌}

mutual
  pub data PAllocItem : Type 0 where
    -- index and offset
    page : ℕ → ℕ → PAllocItem
    sub_table : ℕ → ℕ → PartialPageAllocation → PAllocItem

  pub data PAllocItems : Type 0 where
    no_items : PAllocItems
    item_then : PAllocItem → PAllocItems → PAllocItems

  -- the items, and the size of a page
  pub data PartialPageAllocation : Type 0 where
    partial : PAllocItems → ℕ → PartialPageAllocation

abbrev pub offset : PAllocItem → ℕ
offset (page index at) = at
offset (sub_table index at inner) = at

-- `offset_mut`, as the change that is made through it
abbrev pub change_offset : (ℕ → ℕ) → PAllocItem → PAllocItem
change_offset change (page index at) = page index (change at)
change_offset change (sub_table index at inner) = sub_table index (change at) inner

abbrev pub entries : PartialPageAllocation → PAllocItems
entries (partial items page_size) = items

abbrev pub page_size_of : PartialPageAllocation → ℕ
page_size_of (partial items page_size) = page_size

unfoldable pub change_offsets : (ℕ → ℕ) → PAllocItems → PAllocItems
change_offsets change no_items = no_items
change_offsets change (item_then item items) =
    item_then (change_offset change item) (change_offsets change items)

unfoldable pub push : PAllocItems → PAllocItem → PAllocItems
push no_items new = item_then new no_items
push (item_then item items) new = item_then item (push items new)

unfoldable pub insert_by_offset : PAllocItem → PAllocItems → PAllocItems
insert_by_offset new no_items = item_then new no_items
insert_by_offset new (item_then item items) =
    let rest = insert_by_offset new items in
    if leb (offset new) (offset item)
    then item_then new (item_then item items)
    else item_then item rest

-- `sort_by_key(|i| i.offset())`, which is stable
unfoldable pub sort_by_offset : PAllocItems → PAllocItems
unfolding insert_by_offset
sort_by_offset no_items = no_items
sort_by_offset (item_then item items) = insert_by_offset item (sort_by_offset items)

unfoldable mutual
  pub start_addr : PartialPageAllocation → ℕ
  start_addr (partial items page_size) = first_start page_size items

  first_start : ℕ → PAllocItems → ℕ
  first_start page_size no_items = 0
  first_start page_size (item_then item items) = item_start page_size item

  item_start : ℕ → PAllocItem → ℕ
  item_start page_size (page index at) = index * page_size
  item_start page_size (sub_table index at inner) = start_addr inner + index * page_size

unfoldable mutual
  pub end_addr : PartialPageAllocation → ℕ
  end_addr (partial items page_size) = last_end page_size 0 items

  -- The end of the last item, after an item that ends at `before`.
  pub last_end : ℕ → ℕ → PAllocItems → ℕ
  last_end page_size before no_items = before
  last_end page_size before (item_then item items) =
      last_end page_size (item_end page_size item) items

  item_end : ℕ → PAllocItem → ℕ
  item_end page_size (page index at) = (index + 1) * page_size
  item_end page_size (sub_table index at inner) = end_addr inner + index * page_size

unfoldable mutual
  pub size : PartialPageAllocation → ℕ
  size (partial items page_size) = sizes page_size items

  pub sizes : ℕ → PAllocItems → ℕ
  sizes page_size no_items = 0
  sizes page_size (item_then item items) = item_size page_size item + sizes page_size items

  item_size : ℕ → PAllocItem → ℕ
  item_size page_size (page index at) = page_size
  item_size page_size (sub_table index at inner) = size inner
