-- ===== src/Sync/BaseLocks/Exclusion.antt =====
-- What the reader-writer lock of sync/baselocks.rs keeps apart, for fewer than 256 threads: more
-- upgraders that retreat at once could carry over into the writer's bit.
use mathlib.Core.Path.{subst}
use cookie_os.Base.{
  ℕ, ◌+◌, ◌-◌, ◌≤◌, ◌<◌, ◌≡◌, ◌==◌, if◌then◌else◌, refl, sym, ap, ◌∙◌, arith, Bool, true, false,
  List, [], ◌∷◌, ◌++◌, length, length-append, All, sum_by, sum_by-middle, ok,
}
use cookie_os.Sync.BaseLocks.{
  RwLockStrategy, locked, failed, writer, unlock_shared, read_unlocked, try_lock_exclusive,
  try_upgrade,
}
use cookie_os.Sync.BaseLocks.Steps.{Thread, System, Step, Reach}
use cookie_os.Sync.BaseLocks.Counts.{
  Others, with_thread, Counted, exclusive_of, upgradable_of, shared_of, upgrader_of, reader_of,
  action_lem,
}
use Thread.{idle, shared, exclusive, upgradable, retreating_shared, retreating_upgradable}

abbrev tally : List Thread → Others
tally ts = record {
  e = sum_by exclusive_of ts;
  u = sum_by upgradable_of ts;
  s = sum_by shared_of ts;
  ru = sum_by upgrader_of ts;
  rs = sum_by reader_of ts;
}

abbrev pub holds_lock : Thread → Bool
holds_lock shared = true
holds_lock exclusive = true
holds_lock upgradable = true
holds_lock _ = false

abbrev pub may_write : Thread → Bool
may_write exclusive = true
may_write upgradable = true
may_write _ = false

abbrev total : Others → ℕ
total o = o.e + o.u + o.s + o.ru + o.rs

tally-le-length : (ts : List Thread) → total (tally ts) ≤ length ts
tally-le-length [] = omega arith
tally-le-length (idle ∷ ts) = omega (arith, tally-le-length ts)
tally-le-length (shared ∷ ts) = omega (arith, tally-le-length ts)
tally-le-length (exclusive ∷ ts) = omega (arith, tally-le-length ts)
tally-le-length (upgradable ∷ ts) = omega (arith, tally-le-length ts)
tally-le-length (retreating_shared ∷ ts) = omega (arith, tally-le-length ts)
tally-le-length (retreating_upgradable ∷ ts) = omega (arith, tally-le-length ts)

others_few :
    (ps qs : List Thread) (p : Thread)
    → length (ps ++ p ∷ qs) < 256
    → total (tally (ps ++ qs)) < 255
others_few ps qs p h =
    omega (arith, h, tally-le-length (ps ++ qs), length-append ps (p ∷ qs), length-append ps qs)

tally-middle :
    (ps qs : List Thread) (p : Thread) → tally (ps ++ p ∷ qs) ≡ with_thread (tally (ps ++ qs)) p
tally-middle ps qs p =
    rw
      (
        sum_by-middle exclusive_of ps qs p,
        sum_by-middle upgradable_of ps qs p,
        sum_by-middle shared_of ps qs p,
        sum_by-middle upgrader_of ps qs p,
        sum_by-middle reader_of ps qs p,
      )
      refl

idle_total : (ts : List Thread) → All (λ p. p ≡ idle) ts → total (tally ts) ≡ 0
idle_total [] h = refl
idle_total (p ∷ ts) h = rw (h.0) (omega (arith, idle_total ts h.1))

none_hold :
    (ts : List Thread)
    → sum_by exclusive_of ts + sum_by upgradable_of ts + sum_by shared_of ts ≡ 0
    → All (λ p. holds_lock p ≡ false) ts
none_hold [] h = tt
none_hold (p ∷ ts) h = (not_held p (omega arith), none_hold ts (omega arith))
  where
    not_held :
        (q : Thread) → exclusive_of q + upgradable_of q + shared_of q ≡ 0 → holds_lock q ≡ false
    not_held idle e = refl
    not_held shared e = absurd (omega arith)
    not_held exclusive e = absurd (omega arith)
    not_held upgradable e = absurd (omega arith)
    not_held retreating_shared e = refl
    not_held retreating_upgradable e = refl

none_write :
    (ts : List Thread)
    → sum_by exclusive_of ts + sum_by upgradable_of ts ≡ 0
    → All (λ p. may_write p ≡ false) ts
none_write [] h = tt
none_write (p ∷ ts) h = (no_writer p (omega arith), none_write ts (omega arith))
  where
    no_writer : (q : Thread) → exclusive_of q + upgradable_of q ≡ 0 → may_write q ≡ false
    no_writer idle e = refl
    no_writer shared e = refl
    no_writer exclusive e = absurd (omega arith)
    no_writer upgradable e = absurd (omega arith)
    no_writer retreating_shared e = refl
    no_writer retreating_upgradable e = refl

module _ {ℓ} {S : Type ℓ} (hooks : RwLockStrategy S) where
  -- The lock, and the threads.
  Inv : System hooks → Type 0
  Inv s = Counted (tally s.threads) s.lock.value

  Step-length : {s t : System hooks} → Step hooks s t → length t.threads ≡ length s.threads
  Step-length {s} (Step.act ps qs {p} {q} e a) =
      omega (arith, ap length e, length-append ps (p ∷ qs), length-append ps (q ∷ qs))

  Step-Inv : {s t : System hooks} → length s.threads < 256 → Step hooks s t → Inv s → Inv t
  unfolding Inv
  Step-Inv {s} few (Step.act ps qs {p} {q} {k} e a) inv =
      subst (λ o. Counted o k.value) (sym (tally-middle ps qs q))
        (action_lem hooks (tally (ps ++ qs)) s.lock k p q
          (others_few ps qs p (subst (λ ts. length ts < 256) e few)) a
          (subst (λ o. Counted o s.lock.value) (ap tally e ∙ tally-middle ps qs p) inv))

  Reach-Inv : {s : System hooks} → length s.threads < 256 → Reach hooks s → Inv s
  unfolding Inv
  Reach-Inv few (Reach.start strategy threads h) = omega (arith, idle_total threads h)
  Reach-Inv few (Reach.next r step) =
      let before = subst (λ n. n < 256) (Step-length step) few in
      Step-Inv before step (Reach-Inv before r)

  -- The invariant with one thread set apart.
  with_other :
      {s : System hooks}
      → length s.threads < 256
      → Reach hooks s
      → (ps qs : List Thread) (p : Thread) → s.threads ≡ ps ++ p ∷ qs
      → Counted (with_thread (tally (ps ++ qs)) p) s.lock.value × (total (tally (ps ++ qs)) < 255)
  unfolding Inv
  with_other {s} few r ps qs p e = (
    subst (λ o. Counted o s.lock.value) (ap tally e ∙ tally-middle ps qs p) (Reach-Inv few r),
    others_few ps qs p (subst (λ ts. length ts < 256) e few),
  )

  -- In every reachable state of fewer than 256 threads: while one is exclusive, no other thread
  -- holds the lock in any way.
  pub exclusive_alone :
      {s : System hooks}
      → length s.threads < 256
      → Reach hooks s
      → (ps qs : List Thread) → s.threads ≡ ps ++ exclusive ∷ qs
      → All (λ p. holds_lock p ≡ false) (ps ++ qs)
  exclusive_alone few r ps qs e =
      let (c, _) = with_other few r ps qs exclusive e in none_hold (ps ++ qs) (omega arith)

  -- In every reachable state of fewer than 256 threads: while one is upgradable, every other thread
  -- that holds the lock is a reader.
  pub upgradable_alone :
      {s : System hooks}
      → length s.threads < 256
      → Reach hooks s
      → (ps qs : List Thread) → s.threads ≡ ps ++ upgradable ∷ qs
      → All (λ p. may_write p ≡ false) (ps ++ qs)
  upgradable_alone few r ps qs e =
      let (c, _) = with_other few r ps qs upgradable e in none_write (ps ++ qs) (omega arith)

  -- In every reachable state of fewer than 256 threads, a reader unlocks without a panic, and the
  -- strategy is told how many others read, those that retreat from an attempt included.
  pub unlock_shared_returns :
      {s : System hooks}
      → length s.threads < 256
      → Reach hooks s
      → (ps qs : List Thread) → s.threads ≡ ps ++ shared ∷ qs
      → unlock_shared hooks s.lock
        ≡ ok (record {
          value = s.lock.value - 1;
          strategy =
              hooks.on_read_unlock
                (sum_by shared_of (ps ++ qs) + sum_by reader_of (ps ++ qs))
                s.lock.strategy;
        })
  unfolding unlock_shared read_unlocked
  unlock_shared_returns {s} few r ps qs e =
      let (c, small) = with_other few r ps qs shared e in ground arith

  -- In every reachable state of fewer than 256 threads where none holds the lock or retreats, the
  -- value is 0: an exclusive lock is granted.
  pub exclusive_when_idle :
      {s : System hooks}
      → length s.threads < 256
      → Reach hooks s
      → All (λ p. p ≡ idle) s.threads
      → try_lock_exclusive hooks s.lock ≡ locked (record s.lock { value = writer })
  unfolding Inv try_lock_exclusive
  exclusive_when_idle {s} few r h =
      let c = Reach-Inv few r in let nothing = idle_total s.threads h in ground arith

  -- In every reachable state of fewer than 256 threads, the upgrade of an upgradable lock is granted
  -- exactly if no other thread holds the lock or retreats, and it changes only the value.
  pub upgrade_lem :
      {s : System hooks}
      → length s.threads < 256
      → Reach hooks s
      → (ps qs : List Thread) → s.threads ≡ ps ++ upgradable ∷ qs
      → try_upgrade hooks s.lock ≡ (
          if total (tally (ps ++ qs)) == 0
          then locked (record s.lock { value = writer })
          else failed s.lock)
  unfolding try_upgrade
  upgrade_lem {s} few r ps qs e =
      let (c, small) = with_other few r ps qs upgradable e in ground arith
