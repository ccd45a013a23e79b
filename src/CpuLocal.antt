-- ===== src/CpuLocal.antt =====
-- kernel/rust/src/multitasking/cpulocal.rs: a value for each CPU, made when it is first asked for.
-- A pointer is the number of its box, in the order of their making, and a value is never changed
-- through it. `_get_for_inner` takes the lock of the `Vec` more than once and lets it go in between:
-- `Get` is where a call stands, and `get_section` what it does the next time it has the lock.
mod Sections
pub mod Steps
pub mod Stable
mod Tests
use cookie_os.Base.{
  ℕ, zero, suc, leb, List, [], ◌∷◌, ◌++◌, length, get_elem?, if◌then◌else◌, Option, none, some,
  Outcome, ok, panic, out_of_fuel, expect, ◌>>=◌,
}

pub record CpuLocal : Type 0 where
  pub pointers : List (Option ℕ)
  pub boxes : ℕ

-- `while pointers.len() <= up_to_id_inclusive`
unfoldable pub initialise_loop : ℕ → ℕ → List (Option ℕ) → Outcome (List (Option ℕ))
initialise_loop zero up_to_id_inclusive pointers = out_of_fuel
initialise_loop (suc fuel) up_to_id_inclusive pointers =
    let again = initialise_loop fuel up_to_id_inclusive (pointers ++ none ∷ []) in
    if leb (length pointers) up_to_id_inclusive then again else ok pointers

-- One turn for each id up to the given one, and one that ends the loop.
unfoldable pub _initialise_empty : CpuLocal → ℕ → Outcome CpuLocal
unfolding initialise_loop
_initialise_empty self up_to_id_inclusive = do
  pointers ← initialise_loop (suc (suc up_to_id_inclusive)) up_to_id_inclusive self.pointers
  ok (record self { pointers = pointers })

-- `wg[id] = pointer`
unfoldable pub set_pointer : ℕ → Option ℕ → List (Option ℕ) → Outcome (List (Option ℕ))
set_pointer id pointer [] = panic
set_pointer zero pointer (old ∷ rest) = ok (pointer ∷ rest)
set_pointer (suc id) pointer (old ∷ rest) = do rest1 ← set_pointer id pointer rest; ok (old ∷ rest1)

-- The section under the write lock, where the item was not there.
unfoldable pub make_item : CpuLocal → ℕ → Outcome (CpuLocal × ℕ)
unfolding set_pointer
make_item self id = do
  pointers ← set_pointer id (some self.boxes) self.pointers
  ok (record { pointers = pointers; boxes = suc self.boxes }, self.boxes)

-- A call of `_get_for_inner` before its first read lock, before `_initialise_empty`, before the read
-- after it, before the write lock, and with the pointer that it returns; with its id.
pub data Get : Type 0 where
  enter initialise look make : ℕ → Get
  done : ℕ → ℕ → Get

-- The match on the item that was read.
abbrev pub found : ℕ → Option ℕ → Get
found id none = make id
found id (some pointer) = done id pointer

unfoldable pub get_section : CpuLocal → Get → Outcome (CpuLocal × Get)
unfolding _initialise_empty make_item
get_section self (enter id) =
    if leb (length self.pointers) id
    then ok (self, initialise id)
    else (do item ← expect (get_elem? self.pointers id); ok (self, found id item))
get_section self (initialise id) = do self1 ← _initialise_empty self id; ok (self1, look id)
get_section self (look id) = do item ← expect (get_elem? self.pointers id); ok (self, found id item)
get_section self (make id) = do (self1, pointer) ← make_item self id; ok (self1, done id pointer)
get_section self (done id pointer) = ok (self, done id pointer)

-- A call that nothing comes between; it has four sections at most.
unfoldable pub _get_for_inner : CpuLocal → ℕ → Outcome (CpuLocal × Get)
unfolding get_section
_get_for_inner self id = do
  (self, get) ← get_section self (enter id)
  (self, get) ← get_section self get
  (self, get) ← get_section self get
  get_section self get
