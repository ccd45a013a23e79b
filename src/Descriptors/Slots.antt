-- ===== src/Descriptors/Slots.antt =====
-- What a handle to a descriptor of descriptors.rs finds, for fewer than 60000 holders: the reference
-- counts have 16 bits.
use mathlib.Core.Path.{subst}
use cookie_os.Base.{
  ◌+◌, ◌≤◌, ◌<◌, ◌≡◌, refl, sym, ap, ◌∙◌, arith, List, [], ◌∷◌, ◌++◌, length, length-append, All,
  sum_by, sum_by-middle, Option, none, some, ok, expect,
}
use cookie_os.Descriptors.{get_a, get_b, reserve_exchange}
use cookie_os.Descriptors.Handles.{Holder, System, Step, Reach, has_handle, has_handle_b}
use cookie_os.Descriptors.Counts.{
  Others, with_holder, Counted, Possible, is_filled, owner, referrer, counted_b, filler, clearer_b,
  clearer_a, action_lem,
}
use Holder.{
  idle, reserved, initialising, filled, counted, handle_a, handle_b, awaiting_b, clearing_b,
  releasing, clearing, cleared,
}

abbrev pub tally : List Holder → Others
tally os = record {
  o = sum_by owner os;
  r = sum_by referrer os;
  hb = sum_by has_handle_b os;
  cb = sum_by counted_b os;
  f = sum_by filler os;
  clr = sum_by clearer_b os;
  cla = sum_by clearer_a os;
}

tally-middle :
    (ps qs : List Holder) (p : Holder) → tally (ps ++ p ∷ qs) ≡ with_holder (tally (ps ++ qs)) p
tally-middle ps qs p =
    rw
      (
        sum_by-middle owner ps qs p,
        sum_by-middle referrer ps qs p,
        sum_by-middle has_handle_b ps qs p,
        sum_by-middle counted_b ps qs p,
        sum_by-middle filler ps qs p,
        sum_by-middle clearer_b ps qs p,
        sum_by-middle clearer_a ps qs p,
      )
      refl

-- The counts of one holder, and of a list of them.
abbrev Fair : Holder → Type 0
Fair p =
    (owner p + referrer p ≤ 1)
    × (counted_b p ≤ filler p)
    × (filler p ≤ owner p)
    × (has_handle_b p + clearer_b p ≤ referrer p)
    × (has_handle p ≤ referrer p)

fair : (p : Holder) → Fair p
fair idle = omega arith
fair reserved = omega arith
fair initialising = omega arith
fair filled = omega arith
fair counted = omega arith
fair handle_a = omega arith
fair handle_b = omega arith
fair awaiting_b = omega arith
fair clearing_b = omega arith
fair releasing = omega arith
fair clearing = omega arith
fair cleared = omega arith

pub all_fair :
    (os : List Holder)
    → (sum_by owner os + sum_by referrer os ≤ length os)
      × (sum_by counted_b os ≤ sum_by filler os)
      × (sum_by filler os ≤ sum_by owner os)
      × (sum_by has_handle_b os + sum_by clearer_b os ≤ sum_by referrer os)
      × (sum_by has_handle os ≤ sum_by referrer os)
all_fair [] = omega arith
all_fair (p ∷ os) = omega (arith, fair p, all_fair os)

pub others_Possible :
    (ps qs : List Holder) (p : Holder)
    → length (ps ++ p ∷ qs) < 60000
    → Possible (ps ++ qs) (tally (ps ++ qs))
others_Possible ps qs p few =
    omega (arith, few, all_fair (ps ++ qs), length-append ps (p ∷ qs), length-append ps qs)

-- With a sum for each count, an idle list has none.
nothing_held :
    (os : List Holder)
    → All (λ p. p ≡ idle) os
    → sum_by owner os + sum_by referrer os + sum_by clearer_a os ≡ 0
nothing_held [] h = refl
nothing_held (p ∷ os) h = rw (h.0) (omega (arith, nothing_held os h.1))

filled_some : {C : Type 0} (slot : Option C) → 0 < is_filled slot → (c : C) × (slot ≡ some c)
filled_some none h = absurd (omega arith)
filled_some (some c) h = (c, refl)

module _ {A B : Type 0} where
  unfoldable pub Inv : System A B → Type 0
  Inv s = Counted (tally s.holders) s.descriptor

  Step-length : {s t : System A B} → Step s t → length t.holders ≡ length s.holders
  Step-length (Step.act ps qs {p} {q} e a) =
      omega (arith, ap length e, length-append ps (p ∷ qs), length-append ps (q ∷ qs))

  -- The invariant with one holder set apart.
  pub apart :
      (s : System A B) (ps qs : List Holder) (p : Holder)
      → s.holders ≡ ps ++ p ∷ qs
      → Inv s
      → Counted (with_holder (tally (ps ++ qs)) p) s.descriptor
  unfolding Inv
  apart s ps qs p e inv =
      subst (λ o. Counted o s.descriptor) (ap tally e ∙ tally-middle ps qs p) inv

  Step-Inv : {s t : System A B} → length s.holders < 60000 → Step s t → Inv s → Inv t
  unfolding Inv
  Step-Inv {s} few (Step.act ps qs {p} {q} {k} e a) inv =
      subst (λ o. Counted o k) (sym (tally-middle ps qs q))
        (action_lem (ps ++ qs) (tally (ps ++ qs)) s.descriptor k p q
          (others_Possible ps qs p (subst (λ os. length os < 60000) e few)) a
          (apart s ps qs p e inv))

  pub Reach-Inv : {s : System A B} → length s.holders < 60000 → Reach s → Inv s
  unfolding Inv
  Reach-Inv few (Reach.start holders h) = ground (arith, nothing_held holders h, all_fair holders)
  Reach-Inv few (Reach.next r step) =
      let before = subst (λ n. n < 60000) (Step-length step) few in
      Step-Inv before step (Reach-Inv before r)

  -- In every reachable state of fewer than 60000 holders, the holder of a handle of either kind finds
  -- slot A filled: `get_a` does not panic.
  pub get_a_returns :
      {s : System A B}
      → length s.holders < 60000
      → Reach s
      → (ps qs : List Holder) (p : Holder) → s.holders ≡ ps ++ p ∷ qs
      → has_handle p ≡ 1
      → (a : A) × (get_a s.descriptor ≡ ok a)
  get_a_returns {s} few r ps qs p e h =
      let c = apart s ps qs p e (Reach-Inv few r) in
      let (a, k) = filled_some s.descriptor.slot_a (omega (arith, fair p)) in (a, ap expect k)

  -- In every reachable state of fewer than 60000 holders, the holder of a B-handle finds slot B
  -- filled: `get_b` does not panic.
  pub get_b_returns :
      {s : System A B}
      → length s.holders < 60000
      → Reach s
      → (ps qs : List Holder) → s.holders ≡ ps ++ handle_b ∷ qs
      → (b : B) × (get_b s.descriptor ≡ ok b)
  get_b_returns {s} few r ps qs e =
      let c = apart s ps qs handle_b e (Reach-Inv few r) in
      let (b, k) = filled_some s.descriptor.slot_b (omega arith) in (b, ap expect k)

  -- In every reachable state of fewer than 60000 holders where none holds or is about to hold
  -- anything, both slots are dropped and the descriptor is free: it can be reserved.
  pub freed_when_idle :
      {s : System A B}
      → length s.holders < 60000
      → Reach s
      → All (λ p. p ≡ idle) s.holders
      → (s.descriptor.slot_a ≡ none)
        × (s.descriptor.slot_b ≡ none)
        × (reserve_exchange s.descriptor ≡ some (record s.descriptor { rc_a = 1 }))
  unfolding Inv reserve_exchange
  freed_when_idle {s} few r h =
      let c = Reach-Inv few r in
      let z = nothing_held s.holders h in let f = all_fair s.holders in ground arith
