-- ===== src/CpuLocal/Stable.antt =====
-- multitasking/cpulocal.rs: a CPU that asks again gets the value that it got before, whatever calls run
-- meanwhile.
use mathlib.Core.Path.{subst}
use cookie_os.Base.{ℕ, ◌≡◌, ◌≢◌, refl, get_elem?, some, ok, update, after_update}
use cookie_os.CpuLocal.{CpuLocal, Get, get_section}
use cookie_os.CpuLocal.Sections.{Ready, Ready-longer, Agrees, section_lem, section-After, make_lem}
use cookie_os.CpuLocal.Steps.{Machine, Step, Reach, Steps}

IsReady : Machine → Type 0
IsReady s = (task : ℕ) → Ready s.local (s.calls task)

Step-IsReady : {s t : Machine} → IsReady s → Step s t → IsReady t
unfolding IsReady
Step-IsReady {s} ready (Step.call task id free) =
    after_update (λ _ c. Ready s.local c) s.calls task _ tt (λ other _. ready other)
Step-IsReady {s} ready (Step.section task get get1 local e f) =
    let r : Ready s.local (some get) = subst (Ready s.local) e (ready task) in
    let after = section-After s.local local get get1 r f in
    after_update (λ _ c. Ready local c) s.calls task _ after.ready
      (λ other _. Ready-longer s.local local (s.calls other) after.longer (ready other))
Step-IsReady {s} ready (Step.return task id q e) =
    after_update (λ _ c. Ready s.local c) s.calls task _ tt (λ other _. ready other)

Reach-IsReady : {s : Machine} → Reach s → IsReady s
unfolding IsReady
Reach-IsReady Reach.start = λ task. tt
Reach-IsReady (Reach.next r step) = Step-IsReady (Reach-IsReady r) step

-- The value `p` of a CPU is made, and no call is about to replace it or to return another one.
pub record Settled (cpu p : ℕ) (s : Machine) : Type 0 where
  pub made : get_elem? s.local.pointers cpu ≡ some (some p)
  pub agree : (task : ℕ) → Agrees cpu p (s.calls task)

Step-Settled :
    (cpu p : ℕ) {s t : Machine} → IsReady s → Settled cpu p s → Step s t → Settled cpu p t
unfolding IsReady
Step-Settled cpu p {s} ready settled (Step.call task id free) = record {
  made = settled.made;
  agree = after_update (λ _ c. Agrees cpu p c) s.calls task _ tt (λ other _. settled.agree other);
}
Step-Settled cpu p {s} ready settled (Step.section task get get1 local e f) =
    let r : Ready s.local (some get) = subst (Ready s.local) e (ready task) in
    let a : Agrees cpu p (some get) = subst (Agrees cpu p) e (settled.agree task) in
    let (made, agrees) = (section-After s.local local get get1 r f).settled cpu p settled.made a in
    record {
      made = made;
      agree =
          after_update (λ _ c. Agrees cpu p c) s.calls task _ agrees
            (λ other _. settled.agree other);
    }
Step-Settled cpu p {s} ready settled (Step.return task id q e) = record {
  made = settled.made;
  agree = after_update (λ _ c. Agrees cpu p c) s.calls task _ tt (λ other _. settled.agree other);
}

Steps-Settled :
    (cpu p : ℕ) {s t : Machine} → Reach s → Settled cpu p s → Steps s t → Settled cpu p t × Reach t
Steps-Settled cpu p r settled Steps.nothing = (settled, r)
Steps-Settled cpu p r settled (Steps.then steps step) =
    let (settled1, r1) = Steps-Settled cpu p r settled steps in
    (Step-Settled cpu p (Reach-IsReady r1) settled1 step, Reach.next r1 step)

-- The call that makes the value of a CPU, with no other one about to make it or to return another
-- value, leaves it so.
make-Settled :
    {s : Machine} (task cpu : ℕ)
    → Reach s
    → s.calls task ≡ some (Get.make cpu)
    → ((other : ℕ) → other ≢ task → Agrees cpu s.local.boxes (s.calls other))
    → (local : CpuLocal) × (get_section s.local (Get.make cpu)
        ≡ ok (local, Get.done cpu s.local.boxes))
      × Settled cpu s.local.boxes (record {
        local = local;
        calls = update s.calls task (some (Get.done cpu s.local.boxes));
      })
unfolding IsReady
make-Settled {s} task cpu r e others =
    let (local, f, made) = make_lem s.local cpu (subst (Ready s.local) e (Reach-IsReady r task)) in
    (
      local,
      f,
      record {
        made = made;
        agree = after_update (λ _ c. Agrees cpu s.local.boxes c) s.calls task _ (λ _. refl) others;
      },
    )

-- Over any interleaving of tasks in `_get_for_inner`, the lock being let go in between as the code does:
-- once the value of a CPU is made and no call is about to make it again, or to return another value
-- that was made before, it stays, and every call for the CPU that returns, then or later, returns it.
-- No call panics: each one that is under way can go on.
pub get_again :
    (cpu p : ℕ) {s t : Machine}
    → Reach s
    → Settled cpu p s
    → Steps s t
    → (get_elem? t.local.pointers cpu ≡ some (some p))
      × ((task q : ℕ) → t.calls task ≡ some (Get.done cpu q) → q ≡ p)
      × ((task : ℕ) (get : Get)
          → t.calls task ≡ some get
          → (local : CpuLocal) × (get1 : Get) × (get_section t.local get ≡ ok (local, get1)))
unfolding IsReady
get_again cpu p {s} {t} r settled steps =
    let (settled1, r1) = Steps-Settled cpu p r settled steps in
    (
      settled1.made,
      λ task q e. subst (Agrees cpu p) e (settled1.agree task) refl,
      λ task get e.
          let (local, get1, f, _) =
            section_lem t.local get (subst (Ready t.local) e (Reach-IsReady r1 task)) in
          (local, get1, f),
    )
