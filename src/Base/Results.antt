-- ===== src/Base/Results.antt =====
-- What a call of Rust code comes to: a value, or a panic. A loop on fuel has a third outcome.
use mathlib.Core.Path.{◌≡◌, refl, subst}
use mathlib.Core.Bool.{Bool, true, false}
use mathlib.Core.Logic.{◌≢◌}
use mathlib.Core.Option.{Option, none, some}
use cookie_os.Base.Tests.{if◌then◌else◌}

pub data Outcome {ℓ} (A : Type ℓ) : Type ℓ where
  panic out_of_fuel : Outcome A
  ok : A → Outcome A

module _ {ℓ κ} {A : Type ℓ} {B : Type κ} where
  infixl 5 ◌>>=◌
  abbrev pub ◌>>=◌ : Outcome A → (A → Outcome B) → Outcome B
  panic >>= next = panic
  out_of_fuel >>= next = out_of_fuel
  ok value >>= next = next value

  -- A chain of calls that returns has a first call that returns.
  pub >>=-eq-ok :
      {b : B} (call : Outcome A) (next : A → Outcome B)
      → (call >>= next) ≡ ok b
      → (value : A) × (call ≡ ok value) × (next value ≡ ok b)
  >>=-eq-ok panic next returned = cc
  >>=-eq-ok out_of_fuel next returned = cc
  >>=-eq-ok (ok value) next returned = (value, refl, returned)

  -- Chains whose second calls agree.
  pub >>=-congr :
      (call : Outcome A) (next other : A → Outcome B)
      → ((value : A) → next value ≡ other value)
      → (call >>= next) ≡ (call >>= other)
  >>=-congr panic next other same = refl
  >>=-congr out_of_fuel next other same = refl
  >>=-congr (ok value) next other same = same value

pub >>=_assoc {ℓ κ μ} :
    {A : Type ℓ} {B : Type κ} {C : Type μ} (call : Outcome A) (next : A → Outcome B)
    (last : B → Outcome C)
    → ((call >>= next) >>= last) ≡ (call >>= λ value. next value >>= last)
>>=_assoc panic next last = refl
>>=_assoc out_of_fuel next last = refl
>>=_assoc (ok value) next last = refl

pub >>=_ok {ℓ} : {A : Type ℓ} (call : Outcome A) → (call >>= λ value. ok value) ≡ call
>>=_ok panic = refl
>>=_ok out_of_fuel = refl
>>=_ok (ok value) = refl

-- Two chains that begin with the same call, and agree after it.
pub >>=_chains {ℓ κ μ ν} :
    {A : Type ℓ} {B : Type κ} {C : Type μ} {D : Type ν} (call : Outcome A) (next : A → Outcome B)
    (last : B → Outcome C) (next' : A → Outcome D) (last' : D → Outcome C)
    → ((value : A) → (next value >>= last) ≡ (next' value >>= last'))
    → ((call >>= next) >>= last) ≡ ((call >>= next') >>= last')
>>=_chains panic next last next' last' same = refl
>>=_chains out_of_fuel next last next' last' same = refl
>>=_chains (ok value) next last next' last' same = same value

-- A call that does not run out of fuel, and whose value, if it returns one, has the property.
abbrev pub Ends {ℓ} : {A : Type ℓ} → (A → Type 0) → Outcome A → Type 0
Ends P panic = Unit
Ends P out_of_fuel = ⊥
Ends P (ok value) = P value

module _ {ℓ κ} {A : Type ℓ} {B : Type κ} where
  pub Ends->>= :
      (P : A → Type 0) (Q : B → Type 0) (call : Outcome A) (next : A → Outcome B)
      → Ends P call
      → ((value : A) → P value → Ends Q (next value))
      → Ends Q (call >>= next)
  Ends->>= P Q panic next e f = tt
  Ends->>= P Q out_of_fuel next e f = absurd e
  Ends->>= P Q (ok value) next e f = f value e

pub Ends-in_fuel {ℓ} :
    {A : Type ℓ} (P : A → Type 0) (call : Outcome A) → Ends P call → call ≢ out_of_fuel
Ends-in_fuel P call e h = subst (Ends P) h e

pub Ends-if {ℓ} :
    {A : Type ℓ} (P : A → Type 0) (b : Bool) (first second : Outcome A)
    → (b ≡ true → Ends P first)
    → (b ≡ false → Ends P second)
    → Ends P (if b then first else second)
Ends-if P true first second e f = e refl
Ends-if P false first second e f = f refl

infixl 5 ◌>>◌
abbrev pub ◌>>◌ {κ} : {B : Type κ} → Outcome (Unit {0}) → Outcome B → Outcome B
first >> second = first >>= λ _. second

-- `assert!`
abbrev pub assert : Bool → Outcome (Unit {0})
assert false = panic
assert true = ok tt

pub Ends-assert {ℓ} :
    {A : Type ℓ} (P : A → Type 0) (b : Bool) (rest : Outcome A)
    → (b ≡ true → Ends P rest)
    → Ends P (assert b >> rest)
Ends-assert P false rest e = tt
Ends-assert P true rest e = e refl

abbrev pub Done {ℓ} : {A : Type ℓ} → Outcome A → Type 0
Done = Ends (λ _. Unit)

pub Done->>= {ℓ κ} :
    {A : Type ℓ} {B : Type κ} (call : Outcome A) (next : A → Outcome B)
    → Done call
    → ((value : A) → Done (next value))
    → Done (call >>= next)
Done->>= call next e f = Ends->>= _ _ call next e (λ value _. f value)

pub Done-assert {ℓ} :
    {A : Type ℓ} (b : Bool) (rest : Outcome A) → Done rest → Done (assert b >> rest)
Done-assert b rest e = Ends-assert _ b rest (λ _. e)

-- `Option::expect`, `Option::unwrap`
abbrev pub expect {ℓ} : {A : Type ℓ} → Option A → Outcome A
expect (some value) = ok value
expect none = panic

pub Done-expect {ℓ} : {A : Type ℓ} (o : Option A) → Done (expect o)
Done-expect (some value) = tt
Done-expect none = tt

abbrev pub Outcome-map {ℓ κ} : {A : Type ℓ} {B : Type κ} → (A → B) → Outcome A → Outcome B
Outcome-map f call = call >>= λ value. ok (f value)

pub ok_injective {ℓ} : {A : Type ℓ} {a b : A} → ok a ≡ ok b → a ≡ b
ok_injective h = cc
