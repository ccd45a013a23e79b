-- ===== src/Sync/Promise/Acknowledgement/Tests.antt =====
-- A run of an acknowledgement, and the witness of its theorem.
use cookie_os.Base.{ℕ, ◌≡◌, refl, [], Bool, update, some}
use cookie_os.Waitlist.Wakeup.{World, Waiter, nobody, finished, start, Step, Steps}
use cookie_os.Sync.Promise.Acknowledgement.{
  ack_empty, ack_positive, get_answer, FillSucceeds, AckSteps, every_get_can_return,
}

-- A thread sleeps before the answer comes and is woken.
abbrev ack_waiters : ℕ → Waiter Bool
ack_waiters =
    update
      (update (update (update (λ i. Waiter.starting) 0 Waiter.locked) 0 Waiter.rejected) 0
        Waiter.asleep)
      0 Waiter.starting

abbrev ack_notified : World ℕ Bool
ack_notified = record {
  cell = ack_positive;
  holder = nobody;
  waiting = [];
  waiter = ack_waiters;
  notifier = finished;
}

ack_notified-AckSteps : AckSteps (start ack_empty) ack_notified
ack_notified-AckSteps =
    Steps.then_step
      (Steps.then_step
        (Steps.then_step
          (Steps.then_step
            (Steps.then_step
              (Steps.then_step (Steps.then_step Steps.stay (Step.lock 0 refl refl))
                (Step.reject 0 refl refl))
              (Step.sleep 0 refl))
            (Step.fill (FillSucceeds.completes refl)))
          (Step.take refl refl))
        (Step.wake 0 [] refl refl))
      (Step.finish refl refl)

every_get_can_return_example :
    (ack_notified.waiting ≡ [])
    × ((answer : Bool) × (get_answer ack_notified.cell ≡ some answer)
        × ((u : World ℕ Bool) × AckSteps ack_notified u × (u.waiter 0 ≡ Waiter.got answer)))
every_get_can_return_example = every_get_can_return ack_notified 0 ack_notified-AckSteps refl
