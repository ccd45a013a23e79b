-- ===== src/Descriptors/Handles.antt =====
-- The handles to one descriptor of descriptors.rs: the atomic operations of all holders in any
-- order. A holder is an initialiser, a handle, or a call that is on its way to or from one.
-- `upgrade` is an acquisition and a drop, `downgrade` a clone and a drop.
use cookie_os.Base.{ℕ, ◌<◌, ◌≡◌, List, ◌∷◌, ◌++◌, All, sum_by, none, some, ok, ◌==◌, true, false}
use cookie_os.Descriptors.{
  Descriptor, take_slot_a, free_rc_a, _clear_slot_b, sub_rc_a, sub_rc_b, add_rc_a, add_rc_b,
  _init_slots, new_empty, reserve_exchange, reserve_stores, acquire_rc_a, acquire_rc_b,
}

-- `reserved`, `initialising`, `filled` and `counted` come before a handle; `awaiting_b` has counted
-- its A-reference only; `clearing_b`, `releasing` and `clearing`, `cleared` are on the way to a drop.
pub data Holder : Type 0 where
  idle reserved initialising filled counted handle_a handle_b awaiting_b clearing_b releasing
        clearing cleared :
      Holder

-- A holder that keeps a handle to clone.
abbrev pub has_handle : Holder → ℕ
has_handle Holder.handle_a = 1
has_handle Holder.handle_b = 1
has_handle _ = 0

abbrev pub has_handle_b : Holder → ℕ
has_handle_b Holder.handle_b = 1
has_handle_b _ = 0

module _ {A B : Type 0} where
  -- One operation: the descriptor and the holder before, and after. `os` are the other holders:
  -- `clone_a_ref` and `clone_b_ref` borrow one of their handles throughout, so they are one step.
  pub data Action (os : List Holder) (d : Descriptor A B)
      : Holder → Descriptor A B → Holder → Type 0 where
    reserves :
        {k : Descriptor A B}
        → reserve_exchange d ≡ some k
        → Action os d Holder.idle k Holder.reserved
    stores : (id : ℕ) → Action os d Holder.reserved (reserve_stores id d) Holder.initialising
    fills : (a : A) (b : B) → Action os d Holder.initialising (_init_slots a b d) Holder.filled
    counts_b : Action os d Holder.filled (add_rc_b d) Holder.counted
    commits : Action os d Holder.counted (add_rc_a d) Holder.handle_b
    gives_up : Action os d Holder.initialising (_clear_slot_b d) Holder.clearing
    acquires_a :
        {k : Descriptor A B}
        → acquire_rc_a d ≡ ok (some k)
        → Action os d Holder.idle k Holder.handle_a
    acquires_first :
        {k : Descriptor A B}
        → acquire_rc_a d ≡ ok (some k)
        → Action os d Holder.idle k Holder.awaiting_b
    acquires_b :
        {k : Descriptor A B}
        → acquire_rc_b d ≡ ok (some k)
        → Action os d Holder.awaiting_b k Holder.handle_b
    misses_b : acquire_rc_b d ≡ ok none → Action os d Holder.awaiting_b d Holder.releasing
    clones_a : 0 < sum_by has_handle os → Action os d Holder.idle (add_rc_a d) Holder.handle_a
    clones_b :
        0 < sum_by has_handle_b os → Action os d Holder.idle (add_rc_b (add_rc_a d)) Holder.handle_b
    drops_a : Action os d Holder.handle_a d Holder.releasing
    drops_b : (d.rc_b == 1) ≡ false → Action os d Holder.handle_b (sub_rc_b d) Holder.releasing
    drops_last_b : (d.rc_b == 1) ≡ true → Action os d Holder.handle_b (sub_rc_b d) Holder.clearing_b
    clears_b : Action os d Holder.clearing_b (_clear_slot_b d) Holder.releasing
    releases : (d.rc_a == 2) ≡ false → Action os d Holder.releasing (sub_rc_a d) Holder.idle
    releases_last : (d.rc_a == 2) ≡ true → Action os d Holder.releasing (sub_rc_a d) Holder.clearing
    clears_a : Action os d Holder.clearing (take_slot_a d) Holder.cleared
    frees : Action os d Holder.cleared (free_rc_a d) Holder.idle

pub record System (A B : Type 0) : Type 0 where
  pub descriptor : Descriptor A B
  pub holders : List Holder

module _ {A B : Type 0} where
  pub data Step (s : System A B) : System A B → Type 0 where
    act :
        (ps qs : List Holder) {p q : Holder} {k : Descriptor A B}
        → s.holders ≡ ps ++ p ∷ qs
        → Action (ps ++ qs) s.descriptor p k q
        → Step s (record { descriptor = k; holders = ps ++ q ∷ qs })

  -- What is reached from an empty descriptor.
  pub data Reach : System A B → Type 0 where
    start :
        (holders : List Holder)
        → All (λ p. p ≡ Holder.idle) holders
        → Reach (record { descriptor = new_empty; holders = holders })
    next : {s t : System A B} → Reach s → Step s t → Reach t
