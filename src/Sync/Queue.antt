-- ===== src/Sync/Queue.antt =====
-- kernel/rust/src/sync/queue.rs: a queue whose readers wait on a list of sync/waitlist.rs while it is
-- empty. A `VecDeque` is a list, its front first, and each function is what runs while the lock of the
-- queue or of the waiting list is held; `Steps` interleaves them. A waiting task is its number.
pub mod Steps
pub mod Delivery
mod Tests
use cookie_os.Base.{ℕ, Bool, true, false, List, [], ◌∷◌, ◌++◌, Option, none, some}

pub record WQueue {ℓ} (T : Type ℓ) : Type ℓ where
  pub waiters : List ℕ
  pub queue : List T

module _ {ℓ} {T : Type ℓ} where
  -- `self.queue.lock().pop_front()`
  unfoldable pub pop_front : WQueue T → WQueue T × Option T
  pop_front self = elim self.queue [
    | [] ↦ (self, none)
    | item ∷ rest ↦ (record self { queue = rest }, some item)
  ]

  -- With the lock of the queue, or without it.
  unfoldable pub get_nonblocking : Bool → WQueue T → WQueue T × Option T
  unfolding pop_front
  get_nonblocking true self = pop_front self
  get_nonblocking false self = (self, none)

  -- The predicate of `wait_until` in `get`.
  unfoldable pub is_filled : WQueue T → Bool
  is_filled self = elim self.queue [ [] ↦ false | item ∷ rest ↦ true ]

  unfoldable pub push_back : T → WQueue T → WQueue T
  push_back item self = record self { queue = self.queue ++ item ∷ [] }

  -- What the scheduler does with the task of `wait_inner`.
  unfoldable pub wait_inner : ℕ → WQueue T → WQueue T
  wait_inner task self = record self { waiters = self.waiters ++ task ∷ [] }

  unfoldable pub notify_one : WQueue T → WQueue T × Option ℕ
  notify_one self = elim self.waiters [
    | [] ↦ (self, none)
    | task ∷ rest ↦ (record self { waiters = rest }, some task)
  ]
