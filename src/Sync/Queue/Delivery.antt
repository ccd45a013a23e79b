-- ===== src/Sync/Queue/Delivery.antt =====
-- Items of sync/queue.rs arrive in their order, and no task sleeps on while there is one for it.
use mathlib.Core.Path.{subst}
use mathlib.Core.List.{append_assoc}
use cookie_os.Base.{
  ℕ, suc, ◌+◌, ◌≤◌, ◌≡◌, ◌⊎◌, inl, inr, refl, sym, ap, ◌∙◌, true, false, List, [], ◌∷◌, ◌++◌,
  length, length-append, none, some, arith, Bool, List-cases,
}
use cookie_os.Sync.Queue.{
  WQueue, pop_front, get_nonblocking, is_filled, push_back, wait_inner, notify_one,
}
use cookie_os.Sync.Queue.Steps.{Holder, nobody, locked, rejected, World, Step, Reach}

unfoldable pub calling : Holder → ℕ
calling nobody = 0
calling (locked task) = 1
calling (rejected task) = 0

NotRejected : Holder → Type 0
NotRejected nobody = Unit {0}
NotRejected (locked task) = Unit {0}
NotRejected (rejected task) = ⊥

either_way {ℓ κ μ ν} :
    {A : Type ℓ} {B : Type κ} {C : Type μ} {D : Type ν} → (A → C) → (B → D) → A ⊎ B → C ⊎ D
either_way f g (inl a) = inl (f a)
either_way f g (inr b) = inr (g b)

length_without :
    (ps qs : List ℕ) (task : ℕ) {tasks : List ℕ}
    → tasks ≡ ps ++ task ∷ qs
    → length tasks ≡ suc (length (ps ++ qs))
length_without ps qs task e =
    ap length e ∙ omega (arith, length-append ps (task ∷ qs), length-append ps qs)

module _ {ℓ} {T : Type ℓ} where
  pop_front-some :
      (self wqueue : WQueue T) (item : T)
      → pop_front self ≡ (wqueue, some item)
      → (self.queue ≡ item ∷ wqueue.queue) × (wqueue.waiters ≡ self.waiters)
  unfolding pop_front
  pop_front-some self wqueue item e = elim (List-cases self.queue) [
    | inl h ↦ let f = rw (h) at e in absurd (cc)
    | inr (first, rest, h) ↦ let f = rw (h) at e in (h ∙ cc, cc)
  ]

  pop_front-none :
      (self wqueue : WQueue T)
      → pop_front self ≡ (wqueue, none)
      → (wqueue.queue ≡ self.queue) × (wqueue.waiters ≡ self.waiters)
  unfolding pop_front
  pop_front-none self wqueue e = elim (List-cases self.queue) [
    | inl h ↦ let f = rw (h) at e in (cc, cc)
    | inr (first, rest, h) ↦ let f = rw (h) at e in absurd (cc)
  ]

  get_nonblocking-some :
      (has_lock : Bool) (self wqueue : WQueue T) (item : T)
      → get_nonblocking has_lock self ≡ (wqueue, some item)
      → (self.queue ≡ item ∷ wqueue.queue) × (wqueue.waiters ≡ self.waiters)
  unfolding get_nonblocking
  get_nonblocking-some true self wqueue item e = pop_front-some self wqueue item e
  get_nonblocking-some false self wqueue item e = absurd (cc)

  is_filled-false : (self : WQueue T) → is_filled self ≡ false → self.queue ≡ []
  unfolding is_filled
  is_filled-false self e = elim (List-cases self.queue) [
    | inl h ↦ h
    | inr (first, rest, h) ↦ let f = rw (h) at e in absurd (cc)
  ]

  notify_one-some :
      (self wqueue : WQueue T) (task : ℕ)
      → notify_one self ≡ (wqueue, some task)
      → (self.waiters ≡ task ∷ wqueue.waiters) × (wqueue.queue ≡ self.queue)
  unfolding notify_one
  notify_one-some self wqueue task e = elim (List-cases self.waiters) [
    | inl h ↦ let f = rw (h) at e in absurd (cc)
    | inr (first, rest, h) ↦ let f = rw (h) at e in (h ∙ cc, cc)
  ]

  notify_one-none :
      (self wqueue : WQueue T)
      → notify_one self ≡ (wqueue, none)
      → (wqueue.waiters ≡ []) × (wqueue.queue ≡ self.queue)
  unfolding notify_one
  notify_one-none self wqueue e = elim (List-cases self.waiters) [
    | inl h ↦ let f = rw (h) at e in (cc, cc)
    | inr (first, rest, h) ↦ let f = rw (h) at e in absurd (cc)
  ]

  Enough : World T → Type 0
  Enough w =
      length w.wqueue.queue ≤ w.pushing + length w.trying + length w.checking + calling w.holder

  Inv : World T → Type 0
  Inv w = ((w.wqueue.waiters ≡ []) × NotRejected w.holder) ⊎ Enough w

  step-Inv : {v w : World T} → Inv v → Step v w → Inv w
  unfolding Inv Enough NotRejected calling wait_inner push_back
  step-Inv {v} inv (Step.call_get task) = either_way (λ h. h) (λ h. omega (arith, h)) inv
  step-Inv {v} inv (Step.get_item ps qs task wqueue item e f) =
      let (g, k) = pop_front-some v.wqueue wqueue item f in
      either_way (λ h. (k ∙ h.0, h.1))
        (λ h. omega (arith, h, ap length g, length_without ps qs task e)) inv
  step-Inv {v} inv (Step.get_none ps qs task wqueue e f) =
      let (g, k) = pop_front-none v.wqueue wqueue f in
      either_way (λ h. (k ∙ h.0, h.1))
        (λ h. omega (arith, h, ap length g, length_without ps qs task e)) inv
  step-Inv {v} inv (Step.lock ps qs task e f) =
      either_way (λ h. (h.0, tt)) (λ h. omega (arith, h, ap calling f, length_without ps qs task e))
        inv
  step-Inv {v} inv (Step.accept task e f) =
      either_way (λ h. (h.0, tt)) (λ h. omega (arith, h, ap calling e)) inv
  step-Inv {v} inv (Step.reject task e f) =
      inr (omega (arith, ap length (is_filled-false v.wqueue f)))
  step-Inv {v} inv (Step.sleep task e) = elim inv [
    | inl h ↦ absurd (subst NotRejected e h.1)
    | inr h ↦ inr (omega (arith, h, ap calling e))
  ]
  step-Inv {v} inv (Step.get_other has_lock wqueue item e) =
      let (g, k) = get_nonblocking-some has_lock v.wqueue wqueue item e in
      either_way (λ h. (k ∙ h.0, h.1)) (λ h. omega (arith, h, ap length g)) inv
  step-Inv {v} inv (Step.push item) =
      either_way (λ h. h) (λ h. omega (arith, h, length-append v.wqueue.queue (item ∷ []))) inv
  step-Inv {v} inv (Step.notify n task wqueue e f g) =
      let (waiting, same) = notify_one-some v.wqueue wqueue task g in
      either_way (λ h. absurd (cc (waiting, h.0))) (λ h. omega (arith, h, ap length same, e)) inv
  step-Inv {v} inv (Step.notify_none n wqueue e f g) =
      let (waiting, same) = notify_one-none v.wqueue wqueue g in
      inl (waiting, subst NotRejected (sym f) tt)

  Reach-Inv : {w : World T} → Reach w → Inv w
  unfolding Inv NotRejected
  Reach-Inv Reach.start = inl (refl, tt)
  Reach-Inv (Reach.next r step) = step-Inv (Reach-Inv r) step

  -- In every reachable state in which a task sleeps on the waiting list, there are no more items in
  -- the queue than calls of `push` that have yet to notify and tasks in `get` that are awake, not
  -- counting one that found the queue empty and is about to sleep: no item is left to a sleeping
  -- task alone.
  pub no_item_left :
      {w : World T}
      → Reach w
      → (task : ℕ) (rest : List ℕ) → w.wqueue.waiters ≡ task ∷ rest
      → length w.wqueue.queue ≤ w.pushing + length w.trying + length w.checking + calling w.holder
  unfolding Inv Enough
  no_item_left r task rest e = elim (Reach-Inv r) [ inl h ↦ absurd (cc (e, h.0)) | inr h ↦ h ]

  moved :
      (pushed taken rest queue : List T) (item : T)
      → pushed ≡ taken ++ queue
      → queue ≡ item ∷ rest
      → pushed ≡ (taken ++ item ∷ []) ++ rest
  moved pushed taken rest queue item e f =
      e ∙ ap (taken ++◌) f ∙ sym (append_assoc taken (item ∷ []) rest)

  step-in_order :
      {v w : World T}
      → v.pushed ≡ v.taken ++ v.wqueue.queue
      → Step v w
      → w.pushed ≡ w.taken ++ w.wqueue.queue
  unfolding wait_inner push_back
  step-in_order {v} h (Step.call_get task) = h
  step-in_order {v} h (Step.get_item ps qs task wqueue item e f) =
      moved v.pushed v.taken wqueue.queue v.wqueue.queue item h
        ((pop_front-some v.wqueue wqueue item f).0)
  step-in_order {v} h (Step.get_none ps qs task wqueue e f) =
      h ∙ ap (v.taken ++◌) (sym ((pop_front-none v.wqueue wqueue f).0))
  step-in_order {v} h (Step.lock ps qs task e f) = h
  step-in_order {v} h (Step.accept task e f) = h
  step-in_order {v} h (Step.reject task e f) = h
  step-in_order {v} h (Step.sleep task e) = h
  step-in_order {v} h (Step.get_other has_lock wqueue item e) =
      moved v.pushed v.taken wqueue.queue v.wqueue.queue item h
        ((get_nonblocking-some has_lock v.wqueue wqueue item e).0)
  step-in_order {v} h (Step.push item) =
      ap (◌++ item ∷ []) h ∙ append_assoc v.taken v.wqueue.queue (item ∷ [])
  step-in_order {v} h (Step.notify n task wqueue e f g) =
      h ∙ ap (v.taken ++◌) (sym ((notify_one-some v.wqueue wqueue task g).1))
  step-in_order {v} h (Step.notify_none n wqueue e f g) =
      h ∙ ap (v.taken ++◌) (sym ((notify_one-none v.wqueue wqueue g).1))

  -- In every reachable state, whatever tasks call in whatever order, the items that were taken and
  -- then those in the queue are exactly the items that were pushed, in the order of the calls: none
  -- is lost, doubled or overtaken.
  pub first_in_first_out : {w : World T} → Reach w → w.pushed ≡ w.taken ++ w.wqueue.queue
  first_in_first_out Reach.start = refl
  first_in_first_out (Reach.next r step) = step-in_order (first_in_first_out r) step
