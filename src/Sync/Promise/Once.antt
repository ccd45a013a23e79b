-- ===== src/Sync/Promise/Once.antt =====
-- Threads that set and get one cell of sync/promise.rs.
use mathlib.Core.Path.{subst, transport}
use cookie_os.Base.{
  ℕ, ◌+◌, ◌≤◌, ◌≡◌, refl, sym, ap, ◌∙◌, arith, ◌==◌, if◌then◌else◌, List, [], ◌∷◌, ◌++◌, All,
  sum_by, sum_by-middle, inl, inr, Bool-cases, Option, none, some, ok,
}
use cookie_os.Sync.Promise.{POnceLock, new, get, set_exchange, set_write, set_store}

-- A thread in the middle of a `set` that won.
pub data Setter : Type 0 where
  outside winner written : Setter

abbrev pub winner_of : Setter → ℕ
winner_of Setter.winner = 1
winner_of _ = 0

abbrev pub written_of : Setter → ℕ
written_of Setter.written = 1
written_of _ = 0

abbrev filled : {T : Type 0} → Option T → ℕ
filled none = 0
filled (some _) = 1

none_outside :
    (ps : List Setter)
    → All (λ p. p ≡ Setter.outside) ps
    → sum_by winner_of ps + sum_by written_of ps ≡ 0
none_outside [] h = refl
none_outside (p ∷ ps) h = rw (h.0) (omega (arith, none_outside ps h.1))

pub record System (T : Type 0) : Type 0 where
  pub lock : POnceLock T
  pub setters : List Setter

module _ {T : Type 0} where
  pub data Action (l : POnceLock T) : Setter → POnceLock T → Setter → Type 0 where
    wins : {k : POnceLock T} → set_exchange l ≡ some k → Action l Setter.outside k Setter.winner
    loses : set_exchange l ≡ none → Action l Setter.outside l Setter.outside
    writes : (value : T) → Action l Setter.winner (set_write value l) Setter.written
    stores : Action l Setter.written (set_store l) Setter.outside

  pub data Step (s : System T) : System T → Type 0 where
    act :
        (ps qs : List Setter) {p q : Setter} {k : POnceLock T}
        → s.setters ≡ ps ++ p ∷ qs
        → Action s.lock p k q
        → Step s (record { lock = k; setters = ps ++ q ∷ qs })

  pub data Steps : System T → System T → Type 0 where
    done : {s : System T} → Steps s s
    more : {s t u : System T} → Steps s t → Step t u → Steps s u

  pub data Reach : System T → Type 0 where
    start :
        (setters : List Setter)
        → All (λ p. p ≡ Setter.outside) setters
        → Reach (record { lock = new; setters = setters })
    next : {s t : System T} → Reach s → Step s t → Reach t

  -- With `w` winners before their write and `d` after it: a winner is alone, and a complete cell has
  -- a value and no winner left.
  Fits : POnceLock T → ℕ → ℕ → Type 0
  Fits l w d =
      (w + d ≤ 1)
      × ((l.state == 1) ≡ (w + d == 1))
      × (l.state ≤ 2)
      × (d + (if l.state == 2 then 1 else 0) ≤ filled l.value)

  action_lem :
      (l k : POnceLock T) (p q : Setter) (w d : ℕ)
      → Action l p k q
      → Fits l (winner_of p + w) (written_of p + d)
      → Fits k (winner_of q + w) (written_of q + d)
  unfolding Fits set_exchange
  action_lem l k p q w d (Action.wins h) f = ground arith
  action_lem l k p q w d (Action.loses h) f = ground arith
  action_lem l k p q w d (Action.writes value) f = ground arith
  action_lem l k p q w d Action.stores f = ground arith

  -- Once complete, no operation changes the cell.
  complete-Action :
      (l k : POnceLock T) (p q : Setter) (w d : ℕ)
      → Action l p k q
      → Fits l (winner_of p + w) (written_of p + d)
      → l.state ≡ 2
      → k ≡ l
  unfolding Fits set_exchange
  complete-Action l k p q w d (Action.wins h) f c = absurd (ground arith)
  complete-Action l k p q w d (Action.loses h) f c = refl
  complete-Action l k p q w d (Action.writes value) f c = absurd (ground arith)
  complete-Action l k p q w d Action.stores f c = absurd (ground arith)

  Inv : System T → Type 0
  unfolding Fits
  Inv s = Fits s.lock (sum_by winner_of s.setters) (sum_by written_of s.setters)

  -- The invariant with one thread set apart.
  apart :
      (l : POnceLock T) (ps qs : List Setter) (p : Setter)
      → Fits l (sum_by winner_of (ps ++ p ∷ qs)) (sum_by written_of (ps ++ p ∷ qs))
        ≡ Fits l
            (winner_of p + sum_by winner_of (ps ++ qs))
            (written_of p + sum_by written_of (ps ++ qs))
  apart l ps qs p = rw (sum_by-middle winner_of ps qs p, sum_by-middle written_of ps qs p) refl

  Step-Inv : {s t : System T} → Step s t → Inv s → Inv t
  unfolding Inv
  Step-Inv {s} (Step.act ps qs {p} {q} {k} e a) inv = transport (sym (apart k ps qs q)) (
      action_lem s.lock k p q (sum_by winner_of (ps ++ qs)) (sum_by written_of (ps ++ qs)) a
        (transport (apart s.lock ps qs p) (subst (λ z. Inv (record s { setters = z })) e inv)))

  Reach-Inv : {s : System T} → Reach s → Inv s
  unfolding Inv Fits
  Reach-Inv (Reach.start setters h) = ground (arith, none_outside setters h)
  Reach-Inv (Reach.next r step) = Step-Inv step (Reach-Inv r)

  Step-complete : {s t : System T} → Step s t → Inv s → s.lock.state ≡ 2 → t.lock ≡ s.lock
  unfolding Inv
  Step-complete {s} (Step.act ps qs {p} {q} {k} e a) inv c =
      complete-Action s.lock k p q (sum_by winner_of (ps ++ qs)) (sum_by written_of (ps ++ qs)) a
        (transport (apart s.lock ps qs p) (subst (λ z. Inv (record s { setters = z })) e inv)) c

  got_complete : (l : POnceLock T) (v : T) → get l ≡ ok (some v) → l.state ≡ 2
  unfolding get
  got_complete l v h = ground arith

  get-some :
      (state : ℕ) (value : Option T)
      → (if state == 2 then 1 else 0) ≤ filled value
      → (r : Option T) × (get (record { state = state; value = value }) ≡ ok r)
  unfolding get
  get-some state (some v) h = elim (Bool-cases (state == 2)) [
    | inl e ↦ (some v, rw (e) refl)
    | inr e ↦ (none, rw (e) refl)
  ]
  get-some state none h = elim (Bool-cases (state == 2)) [
    | inl e ↦ absurd (let k = rw (e) at h in omega (arith, k))
    | inr e ↦ (none, rw (e) refl)
  ]

  -- In every reachable state `get` returns: it finds a value whenever the cell is complete.
  pub get_returns : {s : System T} → Reach s → (r : Option T) × (get s.lock ≡ ok r)
  unfolding Inv Fits
  get_returns {s} r =
      let (_, _, _, full) = Reach-Inv r in get-some s.lock.state s.lock.value (omega (arith, full))

  Steps-complete :
      {s t : System T} → Steps s t → Inv s → s.lock.state ≡ 2 → Inv t × (t.lock ≡ s.lock)
  Steps-complete Steps.done inv c = (inv, refl)
  Steps-complete (Steps.more steps step) inv c =
      let (i, e) = Steps-complete steps inv c in
      (Step-Inv step i, Step-complete step i (ap (λ l. l.state) e ∙ c) ∙ e)

  -- Once a thread got a value from a reachable cell, `get` gives that value for ever, whatever the
  -- threads do: no `set` after it changes anything.
  pub get_stays :
      {s t : System T}
      → Reach s
      → (v : T) → get s.lock ≡ ok (some v)
      → Steps s t
      → get t.lock ≡ ok (some v)
  get_stays {s} r v h steps =
      let (_, e) = Steps-complete steps (Reach-Inv r) (got_complete s.lock v h) in ap get e ∙ h
