-- ===== src/Descriptors/Kept.antt =====
-- A handle to a descriptor of descriptors.rs keeps its slot: no operation of another holder changes
-- or drops it.
use mathlib.Core.Path.{subst}
use cookie_os.Base.{◌<◌, ◌≡◌, arith, List, ◌∷◌, ◌++◌, length, sum_by}
use cookie_os.Descriptors.{Descriptor, reserve_exchange, acquire_rc_a, acquire_rc_b}
use cookie_os.Descriptors.Handles.{Holder, Action, System, Reach, has_handle, has_handle_b}
use cookie_os.Descriptors.Counts.{Others, with_holder, Counted, Possible}
use cookie_os.Descriptors.Slots.{tally, others_Possible, apart, Reach-Inv, all_fair}

module _ {A B : Type 0} where
  slot_a-Action :
      (os : List Holder) (s : Others) (d k : Descriptor A B) (p q : Holder)
      → Possible os s
      → 0 < s.r
      → Action os d p k q
      → Counted (with_holder s p) d
      → k.slot_a ≡ d.slot_a
  unfolding reserve_exchange acquire_rc_a acquire_rc_b
  slot_a-Action os s d k p q possible kept (Action.reserves h) c = ground arith
  slot_a-Action os s d k p q possible kept (Action.stores id) c = ground arith
  slot_a-Action os s d k p q possible kept (Action.fills a b) c = ground arith
  slot_a-Action os s d k p q possible kept Action.counts_b c = ground arith
  slot_a-Action os s d k p q possible kept Action.commits c = ground arith
  slot_a-Action os s d k p q possible kept Action.gives_up c = ground arith
  slot_a-Action os s d k p q possible kept (Action.acquires_a h) c = ground arith
  slot_a-Action os s d k p q possible kept (Action.acquires_first h) c = ground arith
  slot_a-Action os s d k p q possible kept (Action.acquires_b h) c = ground arith
  slot_a-Action os s d k p q possible kept (Action.misses_b h) c = ground arith
  slot_a-Action os s d k p q possible kept (Action.clones_a h) c = ground arith
  slot_a-Action os s d k p q possible kept (Action.clones_b h) c = ground arith
  slot_a-Action os s d k p q possible kept Action.drops_a c = ground arith
  slot_a-Action os s d k p q possible kept (Action.drops_b h) c = ground arith
  slot_a-Action os s d k p q possible kept (Action.drops_last_b h) c = ground arith
  slot_a-Action os s d k p q possible kept Action.clears_b c = ground arith
  slot_a-Action os s d k p q possible kept (Action.releases h) c = ground arith
  slot_a-Action os s d k p q possible kept (Action.releases_last h) c = ground arith
  slot_a-Action os s d k p q possible kept Action.clears_a c = ground arith
  slot_a-Action os s d k p q possible kept Action.frees c = ground arith

  slot_b-Action :
      (os : List Holder) (s : Others) (d k : Descriptor A B) (p q : Holder)
      → Possible os s
      → 0 < s.hb
      → Action os d p k q
      → Counted (with_holder s p) d
      → k.slot_b ≡ d.slot_b
  unfolding reserve_exchange acquire_rc_a acquire_rc_b
  slot_b-Action os s d k p q possible kept (Action.reserves h) c = ground arith
  slot_b-Action os s d k p q possible kept (Action.stores id) c = ground arith
  slot_b-Action os s d k p q possible kept (Action.fills a b) c = ground arith
  slot_b-Action os s d k p q possible kept Action.counts_b c = ground arith
  slot_b-Action os s d k p q possible kept Action.commits c = ground arith
  slot_b-Action os s d k p q possible kept Action.gives_up c = ground arith
  slot_b-Action os s d k p q possible kept (Action.acquires_a h) c = ground arith
  slot_b-Action os s d k p q possible kept (Action.acquires_first h) c = ground arith
  slot_b-Action os s d k p q possible kept (Action.acquires_b h) c = ground arith
  slot_b-Action os s d k p q possible kept (Action.misses_b h) c = ground arith
  slot_b-Action os s d k p q possible kept (Action.clones_a h) c = ground arith
  slot_b-Action os s d k p q possible kept (Action.clones_b h) c = ground arith
  slot_b-Action os s d k p q possible kept Action.drops_a c = ground arith
  slot_b-Action os s d k p q possible kept (Action.drops_b h) c = ground arith
  slot_b-Action os s d k p q possible kept (Action.drops_last_b h) c = ground arith
  slot_b-Action os s d k p q possible kept Action.clears_b c = ground arith
  slot_b-Action os s d k p q possible kept (Action.releases h) c = ground arith
  slot_b-Action os s d k p q possible kept (Action.releases_last h) c = ground arith
  slot_b-Action os s d k p q possible kept Action.clears_a c = ground arith
  slot_b-Action os s d k p q possible kept Action.frees c = ground arith

  -- While one of fewer than 60000 holders has a handle of either kind, no operation of another one
  -- changes slot A.
  pub slot_a_kept :
      {s : System A B}
      → length s.holders < 60000
      → Reach s
      → (ps qs : List Holder) (p q : Holder) (k : Descriptor A B) → s.holders ≡ ps ++ p ∷ qs
      → 0 < sum_by has_handle (ps ++ qs)
      → Action (ps ++ qs) s.descriptor p k q
      → k.slot_a ≡ s.descriptor.slot_a
  slot_a_kept {s} few r ps qs p q k e kept act =
      slot_a-Action (ps ++ qs) (tally (ps ++ qs)) s.descriptor k p q
        (others_Possible ps qs p (subst (λ os. length os < 60000) e few))
        (omega (arith, kept, all_fair (ps ++ qs))) act (apart s ps qs p e (Reach-Inv few r))

  -- While one of fewer than 60000 holders has a B-handle, no operation of another one changes slot B.
  pub slot_b_kept :
      {s : System A B}
      → length s.holders < 60000
      → Reach s
      → (ps qs : List Holder) (p q : Holder) (k : Descriptor A B) → s.holders ≡ ps ++ p ∷ qs
      → 0 < sum_by has_handle_b (ps ++ qs)
      → Action (ps ++ qs) s.descriptor p k q
      → k.slot_b ≡ s.descriptor.slot_b
  slot_b_kept {s} few r ps qs p q k e kept act =
      slot_b-Action (ps ++ qs) (tally (ps ++ qs)) s.descriptor k p q
        (others_Possible ps qs p (subst (λ os. length os < 60000) e few))
        (omega (arith, kept, all_fair (ps ++ qs))) act (apart s ps qs p e (Reach-Inv few r))
