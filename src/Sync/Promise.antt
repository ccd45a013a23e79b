-- ===== src/Sync/Promise.antt =====
-- kernel/rust/src/sync/promise.rs: a cell that is set once. An atomic is its value, and the atomic
-- operations of `set` are given one by one: Sync/Promise/Once.antt interleaves them.
pub mod Once
pub mod Acknowledgement
mod Tests
use cookie_os.Base.{
  ℕ, Bool, true, false, ◌==◌, if◌then◌else◌, Option, none, some, Outcome, ok, ◌>>=◌, expect,
}

abbrev pub promise_empty : ℕ
promise_empty = 0

abbrev pub promise_inuse : ℕ
promise_inuse = 1

abbrev pub promise_complete : ℕ
promise_complete = 2

pub record POnceLock (T : Type 0) : Type 0 where
  pub state : ℕ
  pub value : Option T

module _ {T : Type 0} where
  abbrev pub new : POnceLock T
  new = record { state = promise_empty; value = none }

  -- The `unwrap` panics on an empty value.
  unfoldable pub get : POnceLock T → Outcome (Option T)
  get lock =
      if lock.state == promise_complete
      then (do value ← expect lock.value; ok (some value))
      else ok none

  -- The `compare_exchange` of `set`, the write and the store.
  unfoldable pub set_exchange : POnceLock T → Option (POnceLock T)
  set_exchange lock =
      if lock.state == promise_empty then some (record lock { state = promise_inuse }) else none

  abbrev pub set_write : T → POnceLock T → POnceLock T
  set_write value lock = record lock { value = some value }

  abbrev pub set_store : POnceLock T → POnceLock T
  set_store lock = record lock { state = promise_complete }

  abbrev pub is_filled : POnceLock T → Bool
  is_filled lock = lock.state == promise_complete

  abbrev pub is_empty : POnceLock T → Bool
  is_empty lock = lock.state == promise_empty
