-- ===== src/Descriptors/Counts.antt =====
-- How the reference counts of a descriptor of descriptors.rs count its holders, and what each
-- operation does to the count.
use cookie_os.Base.{min, ℕ, ◌+◌, ◌*◌, ◌≤◌, ◌<◌, ◌≡◌, arith, List, sum_by, Option, none, some}
use cookie_os.Descriptors.{Descriptor, reserve_exchange, acquire_rc_a, acquire_rc_b}
use cookie_os.Descriptors.Handles.{Holder, Action, has_handle, has_handle_b}
use Holder.{
  reserved, initialising, filled, counted, handle_a, handle_b, awaiting_b, clearing_b, releasing,
  clearing, cleared,
}

-- Holders that own the descriptor alone.
abbrev pub owner : Holder → ℕ
owner reserved = 1
owner initialising = 1
owner filled = 1
owner counted = 1
owner clearing = 1
owner cleared = 1
owner _ = 0

-- Holders that count for `rc_a`.
abbrev pub referrer : Holder → ℕ
referrer handle_a = 1
referrer handle_b = 1
referrer awaiting_b = 1
referrer clearing_b = 1
referrer releasing = 1
referrer _ = 0

-- The holders that count for `rc_b` are the B-handles and an initialiser about to be one.
abbrev pub counted_b : Holder → ℕ
counted_b counted = 1
counted_b _ = 0

-- Owners with both slots filled.
abbrev pub filler : Holder → ℕ
filler filled = 1
filler counted = 1
filler _ = 0

abbrev pub clearer_b : Holder → ℕ
clearer_b clearing_b = 1
clearer_b _ = 0

abbrev pub clearer_a : Holder → ℕ
clearer_a clearing = 1
clearer_a _ = 0

abbrev pub is_filled {ℓ} : {A : Type ℓ} → Option A → ℕ
is_filled none = 0
is_filled (some _) = 1

pub record Others : Type 0 where
  pub o : ℕ
  pub r : ℕ
  pub hb : ℕ
  pub cb : ℕ
  pub f : ℕ
  pub clr : ℕ
  pub cla : ℕ

abbrev pub with_holder : Others → Holder → Others
with_holder s p = record {
  o = owner p + s.o;
  r = referrer p + s.r;
  hb = has_handle_b p + s.hb;
  cb = counted_b p + s.cb;
  f = filler p + s.f;
  clr = clearer_b p + s.clr;
  cla = clearer_a p + s.cla;
}

-- A bound on the number of holders, below what the reference counts can hold.
abbrev pub big : ℕ
big = 60000

-- There is one owner at most, and no reference beside it; what the counts are; that only one holder
-- clears slot B, once no B-handle is left; and that the slots are filled exactly while they are
-- referred to, or about to be or to be cleared.
abbrev pub Counted : {A B : Type 0} → Others → Descriptor A B → Type 0
Counted s d =
    (big * s.o + s.r ≤ big)
    × (d.rc_a ≡ s.o + s.r + min 1 s.r)
    × (d.rc_b ≡ s.hb + s.cb)
    × (big * s.clr + s.hb ≤ big)
    × (s.hb + s.clr + s.f ≤ big * is_filled d.slot_b)
    × (s.r + s.f ≤ big * is_filled d.slot_a)
    × (is_filled d.slot_b ≤ s.hb + s.clr + s.f)
    × (is_filled d.slot_a ≤ s.r + s.f + s.cla)

-- What holds of any list of holders.
abbrev pub Possible : List Holder → Others → Type 0
Possible os s =
    (s.o + s.r < 59999)
    × (s.cb ≤ s.f)
    × (s.f ≤ s.o)
    × (s.hb + s.clr ≤ s.r)
    × (sum_by has_handle os ≤ s.r)
    × (sum_by has_handle_b os ≡ s.hb)

module _ {A B : Type 0} where
  pub action_lem :
      (os : List Holder) (s : Others) (d k : Descriptor A B) (p q : Holder)
      → Possible os s
      → Action os d p k q
      → Counted (with_holder s p) d
      → Counted (with_holder s q) k
  unfolding reserve_exchange acquire_rc_a acquire_rc_b
  action_lem os s d k p q possible (Action.reserves h) c = ground arith
  action_lem os s d k p q possible (Action.stores id) c = ground arith
  action_lem os s d k p q possible (Action.fills a b) c = ground arith
  action_lem os s d k p q possible Action.counts_b c = ground arith
  action_lem os s d k p q possible Action.commits c = ground arith
  action_lem os s d k p q possible Action.gives_up c = ground arith
  action_lem os s d k p q possible (Action.acquires_a h) c = ground arith
  action_lem os s d k p q possible (Action.acquires_first h) c = ground arith
  action_lem os s d k p q possible (Action.acquires_b h) c = ground arith
  action_lem os s d k p q possible (Action.misses_b h) c = ground arith
  action_lem os s d k p q possible (Action.clones_a h) c = ground arith
  action_lem os s d k p q possible (Action.clones_b h) c = ground arith
  action_lem os s d k p q possible Action.drops_a c = ground arith
  action_lem os s d k p q possible (Action.drops_b h) c = ground arith
  action_lem os s d k p q possible (Action.drops_last_b h) c = ground arith
  action_lem os s d k p q possible Action.clears_b c = ground arith
  action_lem os s d k p q possible (Action.releases h) c = ground arith
  action_lem os s d k p q possible (Action.releases_last h) c = ground arith
  action_lem os s d k p q possible Action.clears_a c = ground arith
  action_lem os s d k p q possible Action.frees c = ground arith
