-- ===== src/Descriptors/Tests.antt =====
-- Runs of descriptors.rs at concrete states, and the witnesses of its theorems.
use cookie_os.Base.{arith, ℕ, ◌≡◌, refl, Bool, true, [], ◌∷◌, Option, none, some, ok, Option}
use cookie_os.Descriptors.{
  Descriptor, new_empty, reserve_exchange, acquire_rc_a, drop_handle, _clear, _decrement_rc_a,
  _decrement_rc_b, get_a,
}
use cookie_os.Descriptors.Handles.{Holder, Action, System, Step, Reach}
use cookie_os.Descriptors.Slots.{get_a_returns, freed_when_idle}
use cookie_os.Descriptors.Kept.{slot_a_kept}
use Holder.{idle, reserved, initialising, filled, counted, handle_a, handle_b, clearing_b}

abbrev state : ℕ → ℕ → Option ℕ → Option Bool → Descriptor ℕ Bool
state rc_a rc_b slot_a slot_b = record {
  rc_a = rc_a;
  rc_b = rc_b;
  id = 1;
  slot_a = slot_a;
  slot_b = slot_b;
}

-- An open descriptor with a B-handle, and one with an A-handle too.
abbrev opened : Descriptor ℕ Bool
opened = state 2 1 (some 5) (some true)

abbrev shared : Descriptor ℕ Bool
shared = state 3 1 (some 5) (some true)

abbrev empty : Descriptor ℕ Bool
empty = new_empty

abbrev nobody : System ℕ Bool
nobody = record { descriptor = new_empty; holders = idle ∷ idle ∷ [] }

nobody-Reach : Reach nobody
nobody-Reach = Reach.start (idle ∷ idle ∷ []) (refl, (refl, tt))

-- The first holder opens the descriptor.
opened-Reach : Reach (record { descriptor = opened; holders = handle_b ∷ idle ∷ [] })
unfolding reserve_exchange
opened-Reach =
    let at : Descriptor ℕ Bool → Holder → System ℕ Bool =
      λ d p. record { descriptor = d; holders = p ∷ idle ∷ [] } in
    let claimed = record new_empty { rc_a = 1 } in
    Reach.next {s = at (state 1 1 (some 5) (some true)) counted}
      (Reach.next {s = at (state 1 0 (some 5) (some true)) filled}
        (Reach.next {s = at (state 1 0 none none) initialising}
          (Reach.next {s = at claimed reserved}
            (Reach.next nobody-Reach
              (Step.act [] (idle ∷ []) refl (Action.reserves {k = claimed} refl)))
            (Step.act [] (idle ∷ []) refl (Action.stores 1)))
          (Step.act [] (idle ∷ []) refl (Action.fills 5 true)))
        (Step.act [] (idle ∷ []) refl Action.counts_b))
      (Step.act [] (idle ∷ []) refl Action.commits)

shared-Reach : Reach (record { descriptor = shared; holders = handle_b ∷ handle_a ∷ [] })
unfolding acquire_rc_a
shared-Reach =
    Reach.next opened-Reach (Step.act (handle_b ∷ []) [] refl (Action.acquires_a {k = shared} refl))

-- Without interruption: the drop of the B-handle drops slot B, and that of the last handle slot A.
drop_handle-shared : drop_handle true shared ≡ state 2 0 (some 5) none
unfolding drop_handle _decrement_rc_a _decrement_rc_b _clear
drop_handle-shared = refl

drop_handle-last : drop_handle true opened ≡ state 0 0 none none
unfolding drop_handle _decrement_rc_a _decrement_rc_b _clear
drop_handle-last = refl

get_a_returns_example : (a : ℕ) × (get_a shared ≡ ok a)
get_a_returns_example =
    get_a_returns (omega arith) shared-Reach (handle_b ∷ []) [] handle_a refl refl

freed_when_idle_example :
    (empty.slot_a ≡ none)
    × (empty.slot_b ≡ none)
    × (reserve_exchange empty ≡ some (record empty { rc_a = 1 }))
freed_when_idle_example = freed_when_idle (omega arith) nobody-Reach (refl, (refl, tt))

-- The drop of the B-handle begins, while the A-handle stays.
slot_a_kept_example : (state 3 0 (some 5) (some true)).slot_a ≡ shared.slot_a
slot_a_kept_example =
    slot_a_kept (omega arith) shared-Reach [] (handle_a ∷ []) handle_b clearing_b
      (state 3 0 (some 5) (some true)) refl (omega arith) (Action.drops_last_b refl)
