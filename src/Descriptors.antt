-- ===== src/Descriptors.antt =====
-- kernel/rust/src/descriptors.rs: a descriptor, its two reference counts and its slots. An atomic is
-- its value. A function that several atomic operations make up is given with its parts, which
-- Descriptors/Handles.antt interleaves. Slot T is never written.
pub mod Handles
pub mod Counts
pub mod Slots
pub mod Kept
mod Tests
use cookie_os.Base.{
  ℕ, ◌+◌, ◌-◌, ◌%◌, ◌^◌, Bool, true, false, ltb, leb, ◌==◌, if◌then◌else◌, Option, none, some,
  Outcome, ok, panic, ◌>>=◌, ◌>>◌, assert, expect,
}

pub data DescriptorAcquireError : Type 0 where
  descriptor_reserved b_slot_not_available not_found : DescriptorAcquireError

pub record Descriptor (A B : Type 0) : Type 0 where
  pub rc_a : ℕ
  pub rc_b : ℕ
  pub id : ℕ
  pub slot_a : Option A
  pub slot_b : Option B

module _ {A B : Type 0} where
  -- `self.slot_a.take()` of `_clear`, and the store after it.
  abbrev pub take_slot_a : Descriptor A B → Descriptor A B
  take_slot_a d = record d { slot_a = none }

  abbrev pub free_rc_a : Descriptor A B → Descriptor A B
  free_rc_a d = record d { rc_a = 0 }

  unfoldable pub _clear : Descriptor A B → Descriptor A B
  _clear d = free_rc_a (take_slot_a d)

  abbrev pub _clear_slot_b : Descriptor A B → Descriptor A B
  _clear_slot_b d = record d { slot_b = none }

  -- `fetch_sub(1)`, on 16 bits.
  abbrev pub sub_rc_a : Descriptor A B → Descriptor A B
  sub_rc_a d = record d { rc_a = (d.rc_a + (2 ^ 16 - 1)) % 2 ^ 16 }

  abbrev pub sub_rc_b : Descriptor A B → Descriptor A B
  sub_rc_b d = record d { rc_b = (d.rc_b + (2 ^ 16 - 1)) % 2 ^ 16 }

  abbrev pub add_rc_a : Descriptor A B → Descriptor A B
  add_rc_a d = record d { rc_a = (d.rc_a + 1) % 2 ^ 16 }

  abbrev pub add_rc_b : Descriptor A B → Descriptor A B
  add_rc_b d = record d { rc_b = (d.rc_b + 1) % 2 ^ 16 }

  unfoldable pub _decrement_rc_a : Descriptor A B → Descriptor A B
  unfolding _clear
  _decrement_rc_a d = if d.rc_a == 2 then _clear (sub_rc_a d) else sub_rc_a d

  unfoldable pub _decrement_rc_b : Descriptor A B → Descriptor A B
  _decrement_rc_b d = if d.rc_b == 1 then _clear_slot_b (sub_rc_b d) else sub_rc_b d

  abbrev pub _init_slots : A → B → Descriptor A B → Descriptor A B
  _init_slots a_value b_value d = record d { slot_a = some a_value; slot_b = some b_value }

  abbrev pub new_empty : Descriptor A B
  new_empty = record { rc_a = 0; rc_b = 0; id = 0; slot_a = none; slot_b = none }

  -- `compare_exchange(0, 1)` of `reserve`, and the stores after it.
  unfoldable pub reserve_exchange : Descriptor A B → Option (Descriptor A B)
  reserve_exchange d = if d.rc_a == 0 then some (record d { rc_a = 1 }) else none

  abbrev pub reserve_stores : ℕ → Descriptor A B → Descriptor A B
  reserve_stores id d = record d { rc_b = 0; id = id }

  -- The `fetch_update` of `acquire_ref` on `rc_a`: its `rca+1` panics on overflow.
  unfoldable pub acquire_rc_a : Descriptor A B → Outcome (Option (Descriptor A B))
  acquire_rc_a d =
      if leb 2 d.rc_a
      then (do assert (ltb (d.rc_a + 1) (2 ^ 16)); ok (some (record d { rc_a = d.rc_a + 1 })))
      else ok none

  unfoldable pub acquire_rc_b : Descriptor A B → Outcome (Option (Descriptor A B))
  acquire_rc_b d =
      if leb 1 d.rc_b
      then (do assert (ltb (d.rc_b + 1) (2 ^ 16)); ok (some (record d { rc_b = d.rc_b + 1 })))
      else ok none

  -- `DescriptorInitialiser::commit`, without interruption.
  unfoldable pub commit : A → B → Descriptor A B → Descriptor A B
  commit a_value b_value d = add_rc_a (add_rc_b (_init_slots a_value b_value d))

  -- Drop of a handle, without interruption.
  unfoldable pub drop_handle : Bool → Descriptor A B → Descriptor A B
  unfolding _decrement_rc_a _decrement_rc_b
  drop_handle is_b_ref d = _decrement_rc_a (if is_b_ref then _decrement_rc_b d else d)

  -- `get_a` and `get_b`.
  abbrev pub get_a : Descriptor A B → Outcome A
  get_a d = expect d.slot_a

  abbrev pub get_b : Descriptor A B → Outcome B
  get_b d = expect d.slot_b
