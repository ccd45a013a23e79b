-- ===== src/Waitlist/Wakeup.antt =====
-- kernel/rust/src/sync/waitlist.rs: threads in `wait_until_try` on a value that one thread provides
-- before it calls `notify_all`, each operation on the value or under the lock of the list as a step of
-- its own. The value is a cell: `predicate` reads it, `Acts` are operations that the predicate does not
-- see, and `Fills` are those that provide the value.
use cookie_os.Base.{ℕ, ◌≡◌, ◌⊎◌, refl, inl, inr, Option, none, some, List, [], ◌∷◌, ◌++◌, update}

-- A turn of the loop: before the lock, with the lock, with the lock after the predicate failed, on the
-- list, or with the value.
pub data Waiter (R : Type 0) : Type 0 where
  starting locked rejected asleep : Waiter R
  got : R → Waiter R

-- Who provides the value: before that, before the lock, in the loop of `notify_all`, after it.
pub data Notifier : Type 0 where
  before_fill before_lock notifying finished : Notifier

pub data Holder : Type 0 where
  nobody by_notifier : Holder
  by_waiter : ℕ → Holder

pub record World (Cell R : Type 0) : Type 0 where
  pub cell : Cell
  pub holder : Holder
  pub waiting : List ℕ
  pub waiter : ℕ → Waiter R
  pub notifier : Notifier

abbrev pub start : {Cell R : Type 0} → Cell → World Cell R
start c = record {
  cell = c;
  holder = nobody;
  waiting = [];
  waiter = λ i. Waiter.starting;
  notifier = before_fill;
}

module _ {Cell R : Type 0} (predicate : Cell → Option R) (Acts Fills : Cell → Cell → Type 0) where
  pub data Step (w : World Cell R) : World Cell R → Type 0 where
    act : {c : Cell} → Acts w.cell c → Step w (record w { cell = c })
    fill : {c : Cell} → Fills w.cell c → Step w (record w { cell = c; notifier = before_lock })
    lock :
        (i : ℕ)
        → w.waiter i ≡ Waiter.starting
        → w.holder ≡ nobody
        → Step w (record w { holder = by_waiter i; waiter = update w.waiter i Waiter.locked })
    succeed :
        (i : ℕ) (r : R)
        → w.waiter i ≡ Waiter.locked
        → predicate w.cell ≡ some r
        → Step w (record w { holder = nobody; waiter = update w.waiter i (Waiter.got r) })
    reject :
        (i : ℕ)
        → w.waiter i ≡ Waiter.locked
        → predicate w.cell ≡ none
        → Step w (record w { waiter = update w.waiter i Waiter.rejected })
    -- The scheduler puts the task on the list and then drops the lock.
    sleep :
        (i : ℕ)
        → w.waiter i ≡ Waiter.rejected
        → Step w (record w {
          holder = nobody;
          waiting = w.waiting ++ i ∷ [];
          waiter = update w.waiter i Waiter.asleep;
        })
    take :
        w.notifier ≡ before_lock
        → w.holder ≡ nobody
        → Step w (record w { holder = by_notifier; notifier = notifying })
    wake :
        (i : ℕ) (rest : List ℕ)
        → w.notifier ≡ notifying
        → w.waiting ≡ i ∷ rest
        → Step w (record w { waiting = rest; waiter = update w.waiter i Waiter.starting })
    finish :
        w.notifier ≡ notifying
        → w.waiting ≡ []
        → Step w (record w { holder = nobody; notifier = finished })

  pub data Steps : World Cell R → World Cell R → Type 0 where
    stay : {w : World Cell R} → Steps w w
    then_step : {u v w : World Cell R} → Steps u v → Step v w → Steps u w

abbrev pub IsOn : ℕ → List ℕ → Type 0
IsOn i [] = ⊥
IsOn i (x ∷ xs) = (x ≡ i) ⊎ IsOn i xs

pub IsOn-last : (i : ℕ) (xs : List ℕ) → IsOn i (xs ++ i ∷ [])
IsOn-last i [] = inl refl
IsOn-last i (x ∷ xs) = inr (IsOn-last i xs)

pub IsOn-append : (i : ℕ) (xs ys : List ℕ) → IsOn i xs → IsOn i (xs ++ ys)
IsOn-append i [] ys h = absurd h
IsOn-append i (x ∷ xs) ys (inl e) = inl e
IsOn-append i (x ∷ xs) ys (inr h) = inr (IsOn-append i xs ys h)
