-- ===== src/Sync/Promise/Acknowledgement.antt =====
-- kernel/rust/src/sync/promise.rs, `Acknowledgement`: an atomic that is set once, and threads that wait
-- for it on a waiting list.
mod Tests
use cookie_os.Base.{
  ℕ, ◌≡◌, refl, Bool, true, false, ◌==◌, Bool-cases, inl, inr, if◌then◌else◌, Option, none, some,
  Outcome, ok, panic, arith, List, [],
}
use cookie_os.Waitlist.Wakeup.{World, Waiter, Steps, finished, start}
use cookie_os.Waitlist.Woken.{woken}

abbrev pub ack_empty : ℕ
ack_empty = 0

abbrev pub ack_positive : ℕ
ack_positive = 1

abbrev pub ack_negative : ℕ
ack_negative = 2

-- What `get` waits for.
abbrev pub get_answer : ℕ → Option Bool
get_answer state = if state == ack_empty then none else some (state == ack_positive)

-- `none` is `Err(())`.
abbrev pub try_get_answer : ℕ → Outcome (Option Bool)
try_get_answer state =
    if state == ack_empty
    then ok none
    else if state == ack_positive
    then ok (some true)
    else if state == ack_negative
    then ok (some false)
    else panic

abbrev pub is_pending : ℕ → Bool
is_pending state = state == ack_empty

-- The `compare_exchange` of `_fill_internal`, with its success; after a success comes `notify_all`.
abbrev pub fill_exchange : (value state : ℕ) → ℕ × Bool
fill_exchange value state = if state == ack_empty then (value, true) else (state, false)

-- `complete`, and `cancel`, which the drop calls too
abbrev pub complete : ℕ → ℕ × Bool
complete state = fill_exchange ack_positive state

abbrev pub cancel : ℕ → ℕ × Bool
cancel state = fill_exchange ack_negative state

-- An attempt that came too late, and one that succeeded.
pub data FillFails (state : ℕ) : ℕ → Type 0 where
  complete_fails : {after : ℕ} → complete state ≡ (after, false) → FillFails state after
  cancel_fails : {after : ℕ} → cancel state ≡ (after, false) → FillFails state after

pub data FillSucceeds (state : ℕ) : ℕ → Type 0 where
  completes : {after : ℕ} → complete state ≡ (after, true) → FillSucceeds state after
  cancels : {after : ℕ} → cancel state ≡ (after, true) → FillSucceeds state after

fails_quiet : (a b : ℕ) → FillFails a b → get_answer b ≡ get_answer a
fails_quiet a b (FillFails.complete_fails h) = ground arith
fails_quiet a b (FillFails.cancel_fails h) = ground arith

succeeds_fills :
    (a b : ℕ) → FillSucceeds a b → (get_answer a ≡ none) × ((r : Bool) × (get_answer b ≡ some r))
succeeds_fills a b (FillSucceeds.completes h) = (ground arith, (true, ground arith))
succeeds_fills a b (FillSucceeds.cancels h) = (ground arith, (false, ground arith))

abbrev pub AckSteps : World ℕ Bool → World ℕ Bool → Type 0
AckSteps = Steps get_answer FillFails FillSucceeds

-- Over any interleaving of threads that `get` an acknowledgement and of calls of `complete` and
-- `cancel`, each operation on the atomic or under the lock of the waiting list being one step: once the
-- call that filled it has returned from `notify_all`, the waiting list is empty, the acknowledgement has
-- an answer, and every thread has a sequence of steps to the return of its `get` with this answer.
pub every_get_can_return :
    (w : World ℕ Bool) (i : ℕ)
    → AckSteps (start ack_empty) w
    → w.notifier ≡ finished
    → (w.waiting ≡ [])
      × ((answer : Bool) × (get_answer w.cell ≡ some answer)
          × ((u : World ℕ Bool) × AckSteps w u × (u.waiter i ≡ Waiter.got answer)))
every_get_can_return w i =
    woken get_answer FillFails FillSucceeds fails_quiet succeeds_fills ack_empty w i
