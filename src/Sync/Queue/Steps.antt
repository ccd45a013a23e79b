-- ===== src/Sync/Queue/Steps.antt =====
-- Tasks in `get` and `push` of sync/queue.rs, with each use of a lock as a step of its own.
use cookie_os.Base.{ℕ, suc, ◌≡◌, Bool, true, false, List, [], ◌∷◌, ◌++◌, none, some}
use cookie_os.Sync.Queue.{
  WQueue, pop_front, get_nonblocking, is_filled, push_back, wait_inner, notify_one,
}

-- The lock of the waiting list: with a task that has not called its predicate, or with one whose
-- predicate was false and that is about to sleep.
pub data Holder : Type 0 where
  nobody : Holder
  locked rejected : ℕ → Holder

-- The queue, the tasks in `get` that are about to take an item and those about to lock the waiting
-- list, and how many calls of `push` have not notified yet. What was pushed and what was taken, in
-- their order, is kept beside it.
pub record World {ℓ} (T : Type ℓ) : Type ℓ where
  pub wqueue : WQueue T
  pub holder : Holder
  pub trying : List ℕ
  pub checking : List ℕ
  pub pushing : ℕ
  pub pushed : List T
  pub taken : List T

abbrev pub empty_world {ℓ} : {T : Type ℓ} → World T
empty_world = record {
  wqueue = record { waiters = []; queue = [] };
  holder = nobody;
  trying = [];
  checking = [];
  pushing = 0;
  pushed = [];
  taken = [];
}

module _ {ℓ} {T : Type ℓ} where
  pub data Step (w : World T) : World T → Type ℓ where
    call_get : (task : ℕ) → Step w (record w { trying = task ∷ w.trying })
    get_item :
        (ps qs : List ℕ) (task : ℕ) (wqueue : WQueue T) (item : T)
        → w.trying ≡ ps ++ task ∷ qs
        → pop_front w.wqueue ≡ (wqueue, some item)
        → Step w (record w { wqueue = wqueue; trying = ps ++ qs; taken = w.taken ++ item ∷ [] })
    get_none :
        (ps qs : List ℕ) (task : ℕ) (wqueue : WQueue T)
        → w.trying ≡ ps ++ task ∷ qs
        → pop_front w.wqueue ≡ (wqueue, none)
        → Step w (record w { wqueue = wqueue; trying = ps ++ qs; checking = task ∷ w.checking })
    lock :
        (ps qs : List ℕ) (task : ℕ)
        → w.checking ≡ ps ++ task ∷ qs
        → w.holder ≡ nobody
        → Step w (record w { holder = locked task; checking = ps ++ qs })
    accept :
        (task : ℕ)
        → w.holder ≡ locked task
        → is_filled w.wqueue ≡ true
        → Step w (record w { holder = nobody; trying = task ∷ w.trying })
    reject :
        (task : ℕ)
        → w.holder ≡ locked task
        → is_filled w.wqueue ≡ false
        → Step w (record w { holder = rejected task })
    -- The scheduler puts the task on the list and then drops the lock.
    sleep :
        (task : ℕ)
        → w.holder ≡ rejected task
        → Step w (record w { wqueue = wait_inner task w.wqueue; holder = nobody })
    -- `get_if_available` and `get_nonblocking`, which has the lock or not.
    get_other :
        (has_lock : Bool) (wqueue : WQueue T) (item : T)
        → get_nonblocking has_lock w.wqueue ≡ (wqueue, some item)
        → Step w (record w { wqueue = wqueue; taken = w.taken ++ item ∷ [] })
    push :
        (item : T)
        → Step w (record w {
          wqueue = push_back item w.wqueue;
          pushing = suc w.pushing;
          pushed = w.pushed ++ item ∷ [];
        })
    -- A task that is woken calls `wait_ifnt` again.
    notify :
        (n task : ℕ) (wqueue : WQueue T)
        → w.pushing ≡ suc n
        → w.holder ≡ nobody
        → notify_one w.wqueue ≡ (wqueue, some task)
        → Step w (record w { wqueue = wqueue; pushing = n; checking = task ∷ w.checking })
    notify_none :
        (n : ℕ) (wqueue : WQueue T)
        → w.pushing ≡ suc n
        → w.holder ≡ nobody
        → notify_one w.wqueue ≡ (wqueue, none)
        → Step w (record w { wqueue = wqueue; pushing = n })

  pub data Reach : World T → Type ℓ where
    start : Reach empty_world
    next : {v w : World T} → Reach v → Step v w → Reach w
