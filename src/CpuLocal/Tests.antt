-- ===== src/CpuLocal/Tests.antt =====
-- Runs of multitasking/cpulocal.rs, and the witness of its theorem.
use mathlib.Core.Path.{subst}
use cookie_os.Base.{
  ℕ, ◌≡◌, ◌≢◌, refl, sym, [], ◌∷◌, none, some, ok, get_elem?, update, after_update, arith,
}
use cookie_os.CpuLocal.{
  CpuLocal, initialise_loop, _initialise_empty, set_pointer, make_item, Get, get_section,
  _get_for_inner,
}
use cookie_os.CpuLocal.Steps.{Machine, Step, Reach, Steps, unused}
use cookie_os.CpuLocal.Sections.{Agrees}
use cookie_os.CpuLocal.Stable.{Settled, get_again}

abbrev no_values : CpuLocal
no_values = record { pointers = []; boxes = 0 }

abbrev three_slots : CpuLocal
three_slots = record { pointers = none ∷ none ∷ none ∷ []; boxes = 0 }

abbrev value_of_two : CpuLocal
value_of_two = record { pointers = none ∷ none ∷ some 0 ∷ []; boxes = 1 }

first_get : _get_for_inner no_values 2 ≡ ok (value_of_two, Get.done 2 0)
unfolding _get_for_inner get_section _initialise_empty initialise_loop make_item set_pointer
first_get = refl

abbrev stands : Machine → (task : ℕ) → Get → CpuLocal → Machine
stands s task get local = record { local = local; calls = update s.calls task (some get) }

-- Task 0 asks for the value of CPU 2.
abbrev before_making : Machine
before_making =
    stands
      (stands (stands (stands unused 0 (Get.enter 2) no_values) 0 (Get.initialise 2) no_values) 0
        (Get.look 2) three_slots)
      0 (Get.make 2) three_slots

abbrev made_two : Machine
made_two = stands before_making 0 (Get.done 2 0) value_of_two

made_two-Reach : Reach made_two
unfolding get_section _initialise_empty initialise_loop make_item set_pointer
made_two-Reach =
    let r : Reach before_making =
      Reach.next
        (Reach.next
          (Reach.next (Reach.next Reach.start (Step.call 0 2 refl))
            (Step.section 0 (Get.enter 2) (Get.initialise 2) no_values refl refl))
          (Step.section 0 (Get.initialise 2) (Get.look 2) three_slots refl refl))
        (Step.section 0 (Get.look 2) (Get.make 2) three_slots refl refl) in
    Reach.next r (Step.section 0 (Get.make 2) (Get.done 2 0) value_of_two refl refl)

made_two-Settled : Settled 2 0 made_two
made_two-Settled = record {
  made = refl;
  agree =
      after_update (λ _ c. Agrees 2 0 c) before_making.calls 0 (some (Get.done 2 0)) (λ _. refl)
        (λ other e. subst (Agrees 2 0) (sym (alone other e)) tt);
}
  where
    alone : (other : ℕ) → other ≢ 0 → before_making.calls other ≡ none
    alone other e = ground arith

-- Task 1 asks for the same value, and gets it.
abbrev got_again : Machine
got_again = stands (stands made_two 1 (Get.enter 2) value_of_two) 1 (Get.done 2 0) value_of_two

again : Steps made_two got_again
unfolding get_section
again =
    Steps.then (Steps.then Steps.nothing (Step.call 1 2 refl))
      (Step.section 1 (Get.enter 2) (Get.done 2 0) value_of_two refl refl)

get_again_example :
    (get_elem? got_again.local.pointers 2 ≡ some (some 0))
    × ((task q : ℕ) → got_again.calls task ≡ some (Get.done 2 q) → q ≡ 0)
    × ((task : ℕ) (get : Get)
        → got_again.calls task ≡ some get
        → (local : CpuLocal) × (get1 : Get) × (get_section got_again.local get ≡ ok (local, get1)))
get_again_example = get_again 2 0 made_two-Reach made_two-Settled again

-- Two tasks that ask for the value of one CPU at the same time: both find no item, and the second
-- one replaces the value that the first one got.
both_make_items :
    (get_section value_of_two (Get.enter 1) ≡ ok (value_of_two, Get.make 1))
    × (get_section value_of_two (Get.make 1)
        ≡ ok (record { pointers = none ∷ some 1 ∷ some 0 ∷ []; boxes = 2 }, Get.done 1 1))
    × (get_section (record { pointers = none ∷ some 1 ∷ some 0 ∷ []; boxes = 2 }) (Get.make 1)
        ≡ ok (record { pointers = none ∷ some 2 ∷ some 0 ∷ []; boxes = 3 }, Get.done 1 2))
unfolding get_section make_item set_pointer
both_make_items = (refl, refl, refl)
