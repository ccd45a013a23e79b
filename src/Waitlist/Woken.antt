-- ===== src/Waitlist/Woken.antt =====
-- kernel/rust/src/sync/waitlist.rs: no thread is left on the list, and each one gets the value.
use mathlib.Core.Path.{subst}
use cookie_os.Base.{
  ℕ, ◌≡◌, ◌≢◌, ◌⊎◌, refl, sym, ap, ◌∙◌, inl, inr, Bool-cases, true, ◌==◌, ==_iff, Option, none,
  some, List, [], ◌∷◌, ◌++◌, update, after_update, arith, Option-cases,
}
use cookie_os.Waitlist.Wakeup.{
  Waiter, Notifier, Holder, before_fill, before_lock, notifying, finished, nobody, by_notifier,
  by_waiter, World, start, Step, Steps, IsOn, IsOn-last, IsOn-append,
}

-- What the state of one thread says about the lock, the notifier and the list.
IsThread : {R : Type 0} → Option R → Holder → Notifier → List ℕ → ℕ → Waiter R → Type 0
IsThread value holder notifier waiting i Waiter.starting = holder ≢ by_waiter i
IsThread value holder notifier waiting i Waiter.locked = holder ≡ by_waiter i
IsThread value holder notifier waiting i Waiter.rejected =
    (holder ≡ by_waiter i) × (notifier ≢ finished)
IsThread value holder notifier waiting i Waiter.asleep = (holder ≢ by_waiter i) × IsOn i waiting
IsThread value holder notifier waiting i (Waiter.got r) = (holder ≢ by_waiter i) × (value ≡ some r)

-- A step that another thread does not notice.
IsThread-other :
    {R : Type 0} (o o' : Option R) (h h' : Holder) (n n' : Notifier) (l l' : List ℕ) (i : ℕ)
    (s : Waiter R)
    → ((h ≡ by_waiter i) → h' ≡ by_waiter i)
    → ((h' ≡ by_waiter i) → h ≡ by_waiter i)
    → (h ≡ by_waiter i → n ≢ finished → n' ≢ finished)
    → (IsOn i l → IsOn i l')
    → ((r : R) → o ≡ some r → o' ≡ some r)
    → IsThread o h n l i s
    → IsThread o' h' n' l' i s
unfolding IsThread
IsThread-other o o' h h' n n' l l' i Waiter.starting a b c d p t = λ e. t (b e)
IsThread-other o o' h h' n n' l l' i Waiter.locked a b c d p t = a t
IsThread-other o o' h h' n n' l l' i Waiter.rejected a b c d p t = (a t.0, c t.0 t.1)
IsThread-other o o' h h' n n' l l' i Waiter.asleep a b c d p t = (λ e. t.0 (b e), d t.1)
IsThread-other o o' h h' n n' l l' i (Waiter.got r) a b c d p t = ((λ e. t.0 (b e)), p r t.1)

IsOn-tail : (i j : ℕ) (rest : List ℕ) → j ≢ i → IsOn j (i ∷ rest) → IsOn j rest
IsOn-tail i j rest h (inl e) = absurd (h (sym e))
IsOn-tail i j rest h (inr on) = on

by_waiter-injective : (i j : ℕ) → by_waiter i ≡ by_waiter j → i ≡ j
by_waiter-injective i j h = cc

holder_locked :
    {R : Type 0} (o : Option R) {h : Holder} {n : Notifier} (l : List ℕ) {i : ℕ} (s : Waiter R)
    → IsThread o h n l i s
    → h ≡ by_waiter i
    → n ≡ finished
    → s ≡ Waiter.locked
unfolding IsThread
holder_locked o l Waiter.starting t e n = absurd (t e)
holder_locked o l Waiter.locked t e n = refl
holder_locked o l Waiter.rejected t e n = absurd (t.1 n)
holder_locked o l Waiter.asleep t e n = absurd (t.0 e)
holder_locked o l (Waiter.got r) t e n = absurd (t.0 e)

==_refl : (n : ℕ) → (n == n) ≡ true
==_refl n = ground arith

update_same : {A : Type 0} (cells : ℕ → A) (i : ℕ) (a : A) → update cells i a i ≡ a
update_same cells i a = rw (==_refl i) refl

some_injective : {A : Type 0} {a b : A} → some a ≡ some b → a ≡ b
some_injective h = cc

module _ {Cell R : Type 0} (predicate : Cell → Option R) (Acts Fills : Cell → Cell → Type 0)
    (quiet : (a b : Cell) → Acts a b → predicate b ≡ predicate a)
    (fills : (a b : Cell)
      → Fills a b
      → (predicate a ≡ none) × ((r : R) × (predicate b ≡ some r))) where
  record Inv (w : World Cell R) : Type 0 where
    pub threads : (i : ℕ) → IsThread (predicate w.cell) w.holder w.notifier w.waiting i (w.waiter i)
    pub notifier_holds : w.notifier ≡ notifying → w.holder ≡ by_notifier
    pub holder_notifies : w.holder ≡ by_notifier → w.notifier ≡ notifying
    pub not_filled : predicate w.cell ≡ none → w.notifier ≡ before_fill
    pub drained : w.notifier ≡ finished → w.waiting ≡ []

  step-Inv : {v w : World Cell R} → Inv v → Step predicate Acts Fills v w → Inv w
  unfolding IsThread
  step-Inv {v} inv (Step.act {c} a) = record {
    threads = λ i.
        subst (λ o. IsThread o v.holder v.notifier v.waiting i (v.waiter i))
          (sym (quiet v.cell c a)) (inv.threads i);
    notifier_holds = inv.notifier_holds;
    holder_notifies = inv.holder_notifies;
    not_filled = λ e. inv.not_filled (sym (quiet v.cell c a) ∙ e);
    drained = inv.drained;
  }
  step-Inv {v} inv (Step.fill {c} f) =
      let (empty, (r, filled)) = fills v.cell c f in
      let early = inv.not_filled empty in
      record {
        threads = λ i.
            IsThread-other (predicate v.cell) (predicate c) v.holder v.holder v.notifier before_lock
              v.waiting v.waiting i (v.waiter i) (λ e. e) (λ e. e) (λ e n. ground arith) (λ on. on)
              (λ r e. absurd (cc)) (inv.threads i);
        notifier_holds = λ e. absurd (cc);
        holder_notifies = λ e. ground (arith, inv.holder_notifies e);
        not_filled = λ e. absurd (cc);
        drained = λ e. absurd (cc);
      }
  step-Inv {v} inv (Step.lock i a b) = record {
    threads =
        after_update (IsThread (predicate v.cell) (by_waiter i) v.notifier v.waiting) v.waiter i
          Waiter.locked refl
          (λ j o.
            IsThread-other (predicate v.cell) (predicate v.cell) v.holder (by_waiter i) v.notifier
              v.notifier v.waiting v.waiting j (v.waiter j) (λ e. absurd (cc))
              (λ e. absurd (o (by_waiter-injective j i (sym e)))) (λ e n. n) (λ on. on) (λ r e. e)
              (inv.threads j));
    notifier_holds = λ e. absurd (cc (inv.notifier_holds e));
    holder_notifies = λ e. absurd (cc);
    not_filled = inv.not_filled;
    drained = inv.drained;
  }
  step-Inv {v} inv (Step.succeed i r a f) =
      let k : v.holder ≡ by_waiter i =
        subst (IsThread (predicate v.cell) v.holder v.notifier v.waiting i) a (inv.threads i) in
      record {
        threads =
            after_update (IsThread (predicate v.cell) nobody v.notifier v.waiting) v.waiter i
              (Waiter.got r) ((λ e. absurd (cc)), f)
              (λ j o.
                IsThread-other (predicate v.cell) (predicate v.cell) v.holder nobody v.notifier
                  v.notifier v.waiting v.waiting j (v.waiter j)
                  (λ e. absurd (o (by_waiter-injective j i (sym e ∙ k)))) (λ e. absurd (cc))
                  (λ e n. n) (λ on. on) (λ r e. e) (inv.threads j));
        notifier_holds = λ e. absurd (cc (inv.notifier_holds e));
        holder_notifies = λ e. absurd (cc);
        not_filled = inv.not_filled;
        drained = inv.drained;
      }
  step-Inv {v} inv (Step.reject i a f) =
      let k : v.holder ≡ by_waiter i =
        subst (IsThread (predicate v.cell) v.holder v.notifier v.waiting i) a (inv.threads i) in
      record {
        threads =
            after_update (IsThread (predicate v.cell) v.holder v.notifier v.waiting) v.waiter i
              Waiter.rejected (k, λ e. absurd (cc (inv.not_filled f))) (λ j o. inv.threads j);
        notifier_holds = inv.notifier_holds;
        holder_notifies = inv.holder_notifies;
        not_filled = inv.not_filled;
        drained = inv.drained;
      }
  step-Inv {v} inv (Step.sleep i a) =
      let k : (v.holder ≡ by_waiter i) × (v.notifier ≢ finished) =
        subst (IsThread (predicate v.cell) v.holder v.notifier v.waiting i) a (inv.threads i) in
      record {
        threads =
            after_update (IsThread (predicate v.cell) nobody v.notifier (v.waiting ++ i ∷ []))
              v.waiter i Waiter.asleep ((λ e. absurd (cc)), IsOn-last i v.waiting)
              (λ j o.
                IsThread-other (predicate v.cell) (predicate v.cell) v.holder nobody v.notifier
                  v.notifier v.waiting (v.waiting ++ i ∷ []) j (v.waiter j)
                  (λ e. absurd (o (by_waiter-injective j i (sym e ∙ k.0)))) (λ e. absurd (cc))
                  (λ e n. n) (IsOn-append j v.waiting (i ∷ [])) (λ r e. e) (inv.threads j));
        notifier_holds = λ e. absurd (cc (inv.notifier_holds e, k.0));
        holder_notifies = λ e. absurd (cc);
        not_filled = inv.not_filled;
        drained = λ e. absurd (k.1 e);
      }
  step-Inv {v} inv (Step.take a b) = record {
    threads = λ j.
        IsThread-other (predicate v.cell) (predicate v.cell) v.holder by_notifier v.notifier
          notifying v.waiting v.waiting j (v.waiter j) (λ e. absurd (cc)) (λ e. absurd (cc))
          (λ e n f. absurd (cc)) (λ on. on) (λ r e. e) (inv.threads j);
    notifier_holds = λ e. refl;
    holder_notifies = λ e. refl;
    not_filled = λ e. absurd (cc (inv.not_filled e));
    drained = λ e. absurd (cc);
  }
  step-Inv {v} inv (Step.wake i rest a b) =
      let g = inv.notifier_holds a in
      record {
        threads =
            after_update (IsThread (predicate v.cell) v.holder v.notifier rest) v.waiter i
              Waiter.starting (λ e. absurd (cc))
              (λ j o.
                IsThread-other (predicate v.cell) (predicate v.cell) v.holder v.holder v.notifier
                  v.notifier v.waiting rest j (v.waiter j) (λ e. e) (λ e. e) (λ e n. n)
                  (λ on. IsOn-tail i j rest o (subst (IsOn j) b on)) (λ r e. e) (inv.threads j));
        notifier_holds = inv.notifier_holds;
        holder_notifies = inv.holder_notifies;
        not_filled = inv.not_filled;
        drained = λ e. absurd (cc);
      }
  step-Inv {v} inv (Step.finish a b) =
      let g = inv.notifier_holds a in
      record {
        threads = λ j.
            IsThread-other (predicate v.cell) (predicate v.cell) v.holder nobody v.notifier finished
              v.waiting v.waiting j (v.waiter j) (λ e. absurd (cc)) (λ e. absurd (cc))
              (λ e n. absurd (cc)) (λ on. on) (λ r e. e) (inv.threads j);
        notifier_holds = λ e. absurd (cc);
        holder_notifies = λ e. absurd (cc);
        not_filled = λ e. absurd (cc (inv.not_filled e));
        drained = λ e. b;
      }

  start-Inv : (c : Cell) → Inv (start c)
  unfolding IsThread
  start-Inv c = record {
    threads = λ i e. absurd (cc);
    notifier_holds = λ e. absurd (cc);
    holder_notifies = λ e. absurd (cc);
    not_filled = λ e. refl;
    drained = λ e. refl;
  }

  steps-Inv : {v w : World Cell R} → Steps predicate Acts Fills v w → Inv v → Inv w
  steps-Inv Steps.stay inv = inv
  steps-Inv (Steps.then_step steps s) inv = step-Inv (steps-Inv steps inv) s

  -- When the notifications are over, the lock is free or a thread that will get the value has it.
  holder_cases :
      (w : World Cell R)
      → Inv w
      → w.notifier ≡ finished
      → (w.holder ≡ nobody) ⊎ ((j : ℕ) × (w.waiter j ≡ Waiter.locked))
  holder_cases w inv n = holding w.holder refl
    where
      holding :
          (h : Holder)
          → w.holder ≡ h
          → (w.holder ≡ nobody) ⊎ ((j : ℕ) × (w.waiter j ≡ Waiter.locked))
      holding Holder.nobody e = inl e
      holding Holder.by_notifier e = absurd (cc (inv.holder_notifies e))
      holding (Holder.by_waiter j) e =
          inr (j, holder_locked (predicate w.cell) w.waiting (w.waiter j) (inv.threads j) e n)

  Steps-append :
      {u v w : World Cell R}
      → Steps predicate Acts Fills u v
      → Steps predicate Acts Fills v w
      → Steps predicate Acts Fills u w
  Steps-append a Steps.stay = a
  Steps-append a (Steps.then_step b s) = Steps.then_step (Steps-append a b) s

  lock_and_succeed :
      (w : World Cell R) (i : ℕ) (r : R)
      → w.waiter i ≡ Waiter.starting
      → w.holder ≡ nobody
      → predicate w.cell ≡ some r
      → (u : World Cell R) × Steps predicate Acts Fills w u × (u.waiter i ≡ Waiter.got r)
  lock_and_succeed w i r a b e = (
    _,
    Steps.then_step (Steps.then_step Steps.stay (Step.lock i a b))
        (Step.succeed i r (update_same w.waiter i Waiter.locked) e),
    update_same (update w.waiter i Waiter.locked) i (Waiter.got r),
  )

  -- Whatever a thread does when the notifications are over, it can go on to the value, by steps of
  -- itself and of the holder of the lock.
  value_from :
      (w : World Cell R) (i : ℕ) (r : R) (s : Waiter R)
      → Inv w
      → w.notifier ≡ finished
      → predicate w.cell ≡ some r
      → w.waiter i ≡ s
      → (u : World Cell R) × Steps predicate Acts Fills w u × (u.waiter i ≡ Waiter.got r)
  unfolding IsThread
  value_from w i r Waiter.starting inv n e a = elim (holder_cases w inv n) [
    | inl free ↦ lock_and_succeed w i r a free e
    | inr (j, k) ↦
        let (u, steps, done) =
          lock_and_succeed (record w { holder = nobody; waiter = update w.waiter j (Waiter.got r) })
            i r
            (elim (Bool-cases (j == i)) [
              | inl f ↦ absurd (cc (sym k ∙ ap w.waiter ((==_iff j i).0 f) ∙ a))
              | inr f ↦ rw (f) a
            ])
            refl e in
        (u, Steps-append (Steps.then_step Steps.stay (Step.succeed j r k e)) steps, done)
  ]
  value_from w i r Waiter.locked inv n e a =
      (_, Steps.then_step Steps.stay (Step.succeed i r a e), update_same w.waiter i (Waiter.got r))
  value_from w i r Waiter.rejected inv n e a =
      absurd (
        (subst (IsThread (predicate w.cell) w.holder w.notifier w.waiting i) a (inv.threads i)).1 n)
  value_from w i r Waiter.asleep inv n e a = absurd (
      subst (IsOn i) (inv.drained n)
        (subst (IsThread (predicate w.cell) w.holder w.notifier w.waiting i) a (inv.threads i)).1)
  value_from w i r (Waiter.got q) inv n e a =
      let t =
        subst (IsThread (predicate w.cell) w.holder w.notifier w.waiting i) a (inv.threads i) in
      (w, Steps.stay, a ∙ ap Waiter.got (some_injective (sym t.1 ∙ e)))

  value_present :
      (w : World Cell R) → Inv w → w.notifier ≡ finished → (r : R) × (predicate w.cell ≡ some r)
  value_present w inv n = elim (Option-cases (predicate w.cell)) [
    | inl e ↦ absurd (cc (inv.not_filled e))
    | inr (r, e) ↦ (r, e)
  ]

  -- After the notifications no thread is left on the list, the value is there, and every thread can go
  -- on to get it.
  pub woken :
      (c : Cell) (w : World Cell R) (i : ℕ)
      → Steps predicate Acts Fills (start c) w
      → w.notifier ≡ finished
      → (w.waiting ≡ [])
        × ((r : R) × (predicate w.cell ≡ some r)
            × ((u : World Cell R) × Steps predicate Acts Fills w u × (u.waiter i ≡ Waiter.got r)))
  woken c w i steps n =
      let inv = steps-Inv steps (start-Inv c) in
      let (r, e) = value_present w inv n in
      (inv.drained n, (r, e, value_from w i r (w.waiter i) inv n e refl))
