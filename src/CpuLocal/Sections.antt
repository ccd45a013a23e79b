-- ===== src/CpuLocal/Sections.antt =====
-- multitasking/cpulocal.rs: what a call of `_get_for_inner` does each time it has the lock.
use mathlib.Core.Path.{subst}
use cookie_os.Base.{
  ℕ, zero, suc, ◌+◌, ◌≤◌, ◌<◌, ◌≡◌, ◌≢◌, refl, sym, ap, ◌∙◌, inl, inr, Bool-cases, leb, List, [],
  ◌∷◌, ◌++◌, length, length-append, get_elem?, Option, none, some, ok, ◌>>=◌, ok_injective, arith,
}
use cookie_os.CpuLocal.{
  CpuLocal, initialise_loop, _initialise_empty, set_pointer, make_item, Get, found, get_section,
}

module _ {ℓ} {A : Type ℓ} where
  get_elem?-append :
      (xs ys : List A) (i : ℕ) (a : A) → get_elem? xs i ≡ some a → get_elem? (xs ++ ys) i ≡ some a
  get_elem?-append [] ys i a h = absurd (cc)
  get_elem?-append (x ∷ xs) ys zero a h = h
  get_elem?-append (x ∷ xs) ys (suc i) a h = get_elem?-append xs ys i a h

  get_elem?-below : (xs : List A) (i : ℕ) → i < length xs → (a : A) × (get_elem? xs i ≡ some a)
  get_elem?-below [] i h = absurd (omega arith)
  get_elem?-below (x ∷ xs) zero h = (x, refl)
  get_elem?-below (x ∷ xs) (suc i) h = get_elem?-below xs i (omega arith)

  below-get_elem? : (xs : List A) (i : ℕ) (a : A) → get_elem? xs i ≡ some a → i < length xs
  below-get_elem? [] i a h = absurd (cc)
  below-get_elem? (x ∷ xs) zero a h = omega arith
  below-get_elem? (x ∷ xs) (suc i) a h = omega (arith, below-get_elem? xs i a h)

-- What is filled stays so, and the list does not get shorter.
record Keeps (old new : List (Option ℕ)) : Type 0 where
  longer : length old ≤ length new
  filled : (i p : ℕ) → get_elem? old i ≡ some (some p) → get_elem? new i ≡ some (some p)

initialise_loop_lem :
    (fuel up_to : ℕ) (pointers : List (Option ℕ))
    → 0 < fuel
    → suc up_to < length pointers + fuel
    → (new : List (Option ℕ)) × (initialise_loop fuel up_to pointers ≡ ok new)
      × (up_to < length new)
      × Keeps pointers new
unfolding initialise_loop
initialise_loop_lem zero up_to pointers h k = absurd (omega arith)
initialise_loop_lem (suc fuel) up_to pointers h k =
    elim (Bool-cases (leb (length pointers) up_to)) [
      | inl e ↦
          let more = length-append pointers (none ∷ []) in
          let (new, f, g, keeps) =
            initialise_loop_lem fuel up_to (pointers ++ none ∷ []) (ground arith)
              (ground (arith, more)) in
          (
            new,
            rw (e, f) refl,
            g,
            record {
              longer = omega (arith, more, keeps.longer);
              filled =
                  λ i p t. keeps.filled i p (get_elem?-append pointers (none ∷ []) i (some p) t);
            },
          )
      | inr e ↦ (
        pointers,
        rw (e) refl,
        ground arith,
        record { longer = omega arith; filled = λ i p t. t },
      )
    ]

_initialise_empty_lem :
    (self : CpuLocal) (id : ℕ)
    → (new : List (Option ℕ)) × (_initialise_empty self id ≡ ok (record self { pointers = new }))
      × (id < length new)
      × Keeps self.pointers new
unfolding _initialise_empty
_initialise_empty_lem self id =
    let (new, f, g, keeps) =
      initialise_loop_lem (suc (suc id)) id self.pointers (omega arith) (omega arith) in
    (new, ap (λ t. t >>= λ ps. ok (record self { pointers = ps })) f, g, keeps)

set_pointer_lem :
    (id q : ℕ) (pointers : List (Option ℕ))
    → id < length pointers
    → (new : List (Option ℕ)) × (set_pointer id (some q) pointers ≡ ok new)
      × (length new ≡ length pointers)
      × (get_elem? new id ≡ some (some q))
      × ((i : ℕ) → id ≢ i → get_elem? new i ≡ get_elem? pointers i)
unfolding set_pointer
set_pointer_lem id q [] h = absurd (omega arith)
set_pointer_lem zero q (old ∷ rest) h = (some q ∷ rest, refl, refl, refl, after)
  where
    after : (i : ℕ) → 0 ≢ i → get_elem? (some q ∷ rest) i ≡ get_elem? (old ∷ rest) i
    after zero e = absurd (e refl)
    after (suc i) e = refl
set_pointer_lem (suc id) q (old ∷ rest) h =
    let (new, f, g, k, same) = set_pointer_lem id q rest (omega arith) in
    (old ∷ new, rw (f) refl, ap suc g, k, after new same)
  where
    after :
        (new : List (Option ℕ))
        → ((i : ℕ) → id ≢ i → get_elem? new i ≡ get_elem? rest i)
        → (i : ℕ) → suc id ≢ i
        → get_elem? (old ∷ new) i ≡ get_elem? (old ∷ rest) i
    after new same zero e = refl
    after new same (suc i) e = same i (λ h. e (ap suc h))

-- A call past the first read is for an id inside the list.
abbrev pub Ready : CpuLocal → Option Get → Type 0
Ready self none = Unit
Ready self (some (Get.enter id)) = Unit
Ready self (some (Get.initialise id)) = Unit
Ready self (some (Get.look id)) = id < length self.pointers
Ready self (some (Get.make id)) = id < length self.pointers
Ready self (some (Get.done id q)) = Unit

-- A call neither replaces the value `p` of a CPU nor returns another one.
abbrev pub Agrees : ℕ → ℕ → Option Get → Type 0
Agrees cpu p none = Unit
Agrees cpu p (some (Get.enter id)) = Unit
Agrees cpu p (some (Get.initialise id)) = Unit
Agrees cpu p (some (Get.look id)) = Unit
Agrees cpu p (some (Get.make id)) = id ≢ cpu
Agrees cpu p (some (Get.done id q)) = id ≡ cpu → q ≡ p

pub Ready-longer :
    (self self1 : CpuLocal) (call : Option Get)
    → length self.pointers ≤ length self1.pointers
    → Ready self call
    → Ready self1 call
Ready-longer self self1 none h r = tt
Ready-longer self self1 (some (Get.enter id)) h r = tt
Ready-longer self self1 (some (Get.initialise id)) h r = tt
Ready-longer self self1 (some (Get.look id)) h r = omega arith
Ready-longer self self1 (some (Get.make id)) h r = omega arith
Ready-longer self self1 (some (Get.done id q)) h r = tt

-- What a section makes of the list and of its call.
pub record After (self : CpuLocal) (get : Get) (self1 : CpuLocal) (get1 : Get) : Type 0 where
  pub longer : length self.pointers ≤ length self1.pointers
  pub ready : Ready self1 (some get1)
  pub settled :
      (cpu p : ℕ)
      → get_elem? self.pointers cpu ≡ some (some p)
      → Agrees cpu p (some get)
      → (get_elem? self1.pointers cpu ≡ some (some p)) × Agrees cpu p (some get1)

found_lem :
    (self : CpuLocal) (id : ℕ) (item : Option ℕ) (get : Get)
    → get_elem? self.pointers id ≡ some item
    → After self get self (found id item)
found_lem self id none get h = record {
  longer = omega arith;
  ready = below-get_elem? self.pointers id none h;
  settled = λ cpu p t a. (t, λ e. let same = ap (get_elem? self.pointers) e in cc);
}
found_lem self id (some q) get h = record {
  longer = omega arith;
  ready = tt;
  settled = λ cpu p t a. (t, λ e. let same = ap (get_elem? self.pointers) e in cc);
}

pub section_lem :
    (self : CpuLocal) (get : Get)
    → Ready self (some get)
    → (self1 : CpuLocal) × (get1 : Get) × (get_section self get ≡ ok (self1, get1))
      × After self get self1 get1
unfolding get_section make_item
section_lem self (Get.enter id) r = elim (Bool-cases (leb (length self.pointers) id)) [
  | inl e ↦ (
    self,
    Get.initialise id,
    rw e refl,
    record { longer = omega arith; ready = tt; settled = λ cpu p t a. (t, tt) },
  )
  | inr e ↦
      let (item, k) = get_elem?-below self.pointers id (ground arith) in
      (self, found id item, rw (e, k) refl, found_lem self id item (Get.enter id) k)
]
section_lem self (Get.initialise id) r =
    let (new, f, g, keeps) = _initialise_empty_lem self id in
    (
      record self { pointers = new },
      Get.look id,
      rw f refl,
      record {
        longer = keeps.longer;
        ready = g;
        settled = λ cpu p t a. (keeps.filled cpu p t, tt);
      },
    )
section_lem self (Get.look id) r =
    let (item, k) = get_elem?-below self.pointers id r in
    (self, found id item, rw k refl, found_lem self id item (Get.look id) k)
section_lem self (Get.make id) r =
    let (new, f, g, _, same) = set_pointer_lem id self.boxes self.pointers r in
    (
      record { pointers = new; boxes = suc self.boxes },
      Get.done id self.boxes,
      rw f refl,
      record {
        longer = omega (arith, g);
        ready = tt;
        settled = λ cpu p t a. (same cpu a ∙ t, λ e. absurd (a e));
      },
    )
section_lem self (Get.done id q) r = (
  self,
  Get.done id q,
  refl,
  record { longer = omega arith; ready = tt; settled = λ cpu p t a. (t, a) },
)

pub section-After :
    (self self1 : CpuLocal) (get get1 : Get)
    → Ready self (some get)
    → get_section self get ≡ ok (self1, get1)
    → After self get self1 get1
section-After self self1 get get1 r e =
    let (_, _, f, after) = section_lem self get r in
    subst (λ t. After self get (t.0) (t.1)) (ok_injective (sym f ∙ e)) after

-- The value that is made is the one in the list.
pub make_lem :
    (self : CpuLocal) (id : ℕ)
    → id < length self.pointers
    → (self1 : CpuLocal) × (get_section self (Get.make id) ≡ ok (self1, Get.done id self.boxes))
      × (get_elem? self1.pointers id ≡ some (some self.boxes))
unfolding get_section make_item
make_lem self id r =
    let (new, f, _, k, _) = set_pointer_lem id self.boxes self.pointers r in
    (record { pointers = new; boxes = suc self.boxes }, rw f refl, k)
