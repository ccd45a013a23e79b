-- ===== src/Sync/Queue/Tests.antt =====
-- Runs of sync/queue.rs with one task that waits for an item, and the witnesses of its theorems.
use cookie_os.Base.{ℕ, ◌+◌, ◌≤◌, ◌≡◌, refl, false, [], ◌∷◌, ◌++◌, length, none}
use cookie_os.Sync.Queue.{pop_front, get_nonblocking, is_filled, push_back, wait_inner, notify_one}
use cookie_os.Sync.Queue.Steps.{World, empty_world, Step, Reach}
use cookie_os.Sync.Queue.Delivery.{no_item_left, first_in_first_out, calling}

-- Task 3 found the queue empty and sleeps; then 7 is pushed.
abbrev asleep : World ℕ
asleep = record empty_world { wqueue = record { waiters = 3 ∷ []; queue = [] } }

asleep-Reach : Reach asleep
unfolding pop_front is_filled wait_inner
asleep-Reach =
    Reach.next
      (Reach.next
        (Reach.next
          (Reach.next (Reach.next Reach.start (Step.call_get 3))
            (Step.get_none [] [] 3 (record { waiters = []; queue = [] }) refl refl))
          (Step.lock [] [] 3 refl refl))
        (Step.reject 3 refl refl))
      (Step.sleep 3 refl)

abbrev item_pushed : World ℕ
item_pushed = record empty_world {
  wqueue = record { waiters = 3 ∷ []; queue = 7 ∷ [] };
  pushing = 1;
  pushed = 7 ∷ [];
}

item_pushed-Reach : Reach item_pushed
unfolding push_back
item_pushed-Reach = Reach.next asleep-Reach (Step.push 7)

no_item_left_example :
    length item_pushed.wqueue.queue
    ≤ item_pushed.pushing
      + length item_pushed.trying
      + length item_pushed.checking
      + calling item_pushed.holder
no_item_left_example = no_item_left item_pushed-Reach 3 [] refl

-- Task 3 is woken, finds the item and takes it.
abbrev item_taken : World ℕ
item_taken = record empty_world { pushed = 7 ∷ []; taken = 7 ∷ [] }

item_taken-Reach : Reach item_taken
unfolding notify_one is_filled pop_front
item_taken-Reach =
    Reach.next
      (Reach.next
        (Reach.next
          (Reach.next item_pushed-Reach
            (Step.notify 0 3 (record { waiters = []; queue = 7 ∷ [] }) refl refl refl))
          (Step.lock [] [] 3 refl refl))
        (Step.accept 3 refl refl))
      (Step.get_item [] [] 3 (record { waiters = []; queue = [] }) 7 refl refl)

first_in_first_out_example : item_taken.pushed ≡ item_taken.taken ++ item_taken.wqueue.queue
first_in_first_out_example = first_in_first_out item_taken-Reach

get_nonblocking_run : get_nonblocking false item_pushed.wqueue ≡ (item_pushed.wqueue, none)
unfolding get_nonblocking
get_nonblocking_run = refl
