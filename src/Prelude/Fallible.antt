-- ===== src/Prelude/Fallible.antt =====
-- How a C function of the extension ends, and the sequencing of such functions.
use Prim.Native.String.{String}
use mathlib.Core.Path.{◌≡◌, refl, subst}
use mathlib.Core.Bool.{Bool, true, false}
use zombodb.Prelude.Tests.{if◌then◌else◌}

-- A value; a Postgres ERROR with its message; undefined behaviour, such as a read through a
-- pointer to another type; or a loop that is never left.
pub data Outcome {ℓ} (A : Type ℓ) : Type ℓ where
  ok : A → Outcome A
  error : String → Outcome A
  fault : Outcome A
  hang : Outcome A

module _ {ℓ κ} {A : Type ℓ} {B : Type κ} where
  infixl 5 ◌>>=◌
  abbrev pub ◌>>=◌ : Outcome A → (A → Outcome B) → Outcome B
  hang >>= next = hang
  fault >>= next = fault
  error message >>= next = error message
  ok value >>= next = next value

module _ {κ} {B : Type κ} where
  infixl 5 ◌>>◌
  abbrev pub ◌>>◌ : Outcome (Unit {0}) → Outcome B → Outcome B
  first >> rest = first >>= λ done. rest

-- `if (!b) ereport(ERROR, ...)`.
abbrev pub require : Bool → String → Outcome (Unit {0})
require true e = ok tt
require false e = error e

-- An access to an array that is undefined where it is out of bounds.
abbrev pub in_bounds : Bool → Outcome (Unit {0})
in_bounds true = ok tt
in_bounds false = fault

pub ok-injective {ℓ} : {A : Type ℓ} {a b : A} → ok a ≡ ok b → a ≡ b
ok-injective h = cc

-- It returns.
pub data Returns {ℓ κ} {A : Type ℓ} (P : A → Type κ) : Outcome A → Type (ℓ ⊔ κ) where
  returns : {a : A} → P a → Returns P (ok a)

pub Returns-of_ok {ℓ κ} :
    {A : Type ℓ} {P : A → Type κ} {m : Outcome A} {a : A} → Returns P m → m ≡ ok a → P a
Returns-of_ok {P = P} (returns p) e = subst P (ok-injective e) p

-- What holds of the value, if there is one.
pub data WhenOk {ℓ κ} {A : Type ℓ} (P : A → Type κ) : Outcome A → Type (ℓ ⊔ κ) where
  returned : {a : A} → P a → WhenOk P (ok a)
  raised : {e : String} → WhenOk P (error e)
  faulted : WhenOk P fault
  hung : WhenOk P hang

module _ {ℓ κ ι} {A : Type ℓ} {B : Type κ} {P : A → Type ι} where
  pub WhenOk-bind {μ} :
      {Q : B → Type μ} {m : Outcome A} {f : A → Outcome B}
      → WhenOk P m
      → ((a : A) → P a → WhenOk Q (f a))
      → WhenOk Q (m >>= f)
  WhenOk-bind (returned p) next = next _ p
  WhenOk-bind raised next = raised
  WhenOk-bind faulted next = faulted
  WhenOk-bind hung next = hung

module _ {ℓ ι} {A : Type ℓ} {P : A → Type ι} where
  pub WhenOk-of_ok : {m : Outcome A} {a : A} → WhenOk P m → m ≡ ok a → P a
  WhenOk-of_ok (returned p) e = subst P (ok-injective e) p
  WhenOk-of_ok raised e = cc
  WhenOk-of_ok faulted e = cc
  WhenOk-of_ok hung e = cc

  pub WhenOk-mono {μ} :
      {Q : A → Type μ} {m : Outcome A} → WhenOk P m → ((a : A) → P a → Q a) → WhenOk Q m
  WhenOk-mono (returned p) weaken = returned (weaken _ p)
  WhenOk-mono raised weaken = raised
  WhenOk-mono faulted weaken = faulted
  WhenOk-mono hung weaken = hung

pub WhenOk-and {ℓ κ ι} :
    {A : Type ℓ} {P : A → Type κ} {Q : A → Type ι} {m : Outcome A}
    → WhenOk P m
    → WhenOk Q m
    → WhenOk (λ a. P a × Q a) m
WhenOk-and (returned p) q = returned (p, WhenOk-of_ok q refl)
WhenOk-and raised q = raised
WhenOk-and faulted q = faulted
WhenOk-and hung q = hung

-- What holds of the value for every index.
pub WhenOk-each {ℓ κ ι} :
    {A : Type ℓ} {I : Type κ} {P : I → A → Type ι} {m : Outcome A}
    → ((i : I) → WhenOk (P i) m)
    → WhenOk (λ a. (i : I) → P i a) m
WhenOk-each {m = ok a} h = returned (λ i. WhenOk-of_ok (h i) refl)
WhenOk-each {m = error e} h = raised
WhenOk-each {m = fault} h = faulted
WhenOk-each {m = hang} h = hung

-- A step for its errors only.
pub WhenOk-then {ℓ ι} :
    {A : Type ℓ} {P : A → Type ι} (m : Outcome (Unit {0})) {k : Outcome A}
    → WhenOk P k
    → WhenOk P (m >> k)
WhenOk-then (ok tt) p = p
WhenOk-then (error e) p = raised
WhenOk-then fault p = faulted
WhenOk-then hang p = hung

pub WhenOk-of_Returns {ℓ κ} :
    {A : Type ℓ} {P : A → Type κ} {m : Outcome A} → Returns P m → WhenOk P m
WhenOk-of_Returns (returns p) = returned p

-- Nothing is known of the value.
pub any_outcome : {A : Type 0} (m : Outcome A) → WhenOk (λ a. Unit {0}) m
any_outcome (ok a) = returned tt
any_outcome (error e) = raised
any_outcome fault = faulted
any_outcome hang = hung

-- It ends, with a value or without: no loop is left running.
pub data Ends {ℓ} {A : Type ℓ} : Outcome A → Type ℓ where
  with_value : {a : A} → Ends (ok a)
  with_error : {e : String} → Ends (error e)
  with_fault : Ends fault

module _ {ℓ κ} {A : Type ℓ} {B : Type κ} where
  pub Ends-bind :
      {m : Outcome A} {f : A → Outcome B} → Ends m → ((a : A) → Ends (f a)) → Ends (m >>= f)
  Ends-bind with_value next = next _
  Ends-bind with_error next = with_error
  Ends-bind with_fault next = with_fault

  pub Ends-bind_ok {ι} :
      {P : A → Type ι} {m : Outcome A} {f : A → Outcome B}
      → Ends m
      → WhenOk P m
      → ((a : A) → P a → Ends (f a))
      → Ends (m >>= f)
  Ends-bind_ok with_value (returned p) next = next _ p
  Ends-bind_ok with_error p next = with_error
  Ends-bind_ok with_fault p next = with_fault

module _ {ℓ} {A : Type ℓ} where
  pub Ends-if : (b : Bool) {x y : Outcome A} → Ends x → Ends y → Ends (if b then x else y)
  Ends-if true x y = x
  Ends-if false x y = y

pub require-Ends : (b : Bool) (e : String) → Ends (require b e)
require-Ends true e = with_value
require-Ends false e = with_error

pub Ends-of_Returns {ℓ κ} : {A : Type ℓ} {P : A → Type κ} {m : Outcome A} → Returns P m → Ends m
Ends-of_Returns (returns p) = with_value
