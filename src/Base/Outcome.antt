-- ===== src/Base/Outcome.antt =====
-- runtime/src/cabi/trap.ts: what an operation throws, and the two checks that throw.
use Prim.Native.String.{String}
use mathlib.Core.Path.{◌≡◌, refl, sym, ap, subst}
use mathlib.Core.Bool.{Bool, true, false}

-- A component-model trap, an `AssertionError` (a broken host precondition), or another error.
pub data Failure : Type 0 where
  trap : String → Failure
  assertion_error : String → Failure
  error : String → Failure

pub data Result {ℓ} (A : Type ℓ) : Type ℓ where
  ok : A → Result A
  err : Failure → Result A

infixl 5 ◌>>◌
module _ {ℓ κ} {A : Type ℓ} {B : Type κ} where
  infixl 5 ◌>>=◌
  -- The statements after one that throws do not run.
  abbrev pub ◌>>=◌ : Result A → (A → Result B) → Result B
  err failure >>= rest = err failure
  ok value >>= rest = rest value

  pub >>=-eq-ok :
      (first : Result A) (rest : A → Result B) {b : B}
      → (first >>= rest) ≡ ok b
      → (a : A) × (first ≡ ok a) × (rest a ≡ ok b)
  >>=-eq-ok (err failure) rest returned = cc
  >>=-eq-ok (ok value) rest returned = (value, refl, returned)

pub >>=-assoc {ℓ κ μ} :
    {A : Type ℓ} {B : Type κ} {C : Type μ} (m : Result A) (f : A → Result B) (g : B → Result C)
    → (m >>= f >>= g) ≡ (m >>= λ a. f a >>= g)
>>=-assoc (err failure) f g = refl
>>=-assoc (ok value) f g = refl

abbrev pub trap_if : Bool → String → Result (Unit {0})
trap_if true message = err (trap message)
trap_if false message = ok tt

abbrev pub assert : Bool → String → Result (Unit {0})
assert true message = ok tt
assert false message = err (assertion_error message)

abbrev pub ◌>>◌ {ℓ} : {A : Type ℓ} → Result (Unit {0}) → Result A → Result A
check >> rest = check >>= λ _. rest

abbrev pub IsOk {ℓ} : {A : Type ℓ} → Result A → Type ℓ
IsOk {A} r = (a : A) × (r ≡ ok a)

pub ok_injective {ℓ} : {A : Type ℓ} {a b : A} → ok a ≡ ok b → a ≡ b
ok_injective e = cc

pub assert-eq {ℓ} :
    {A : Type ℓ} (b : Bool) (message : String) (m : Result A)
    → b ≡ true
    → (assert b message >> m) ≡ m
assert-eq b message m e = ap (λ c. assert c message >> m) e

pub trap_if-eq {ℓ} :
    {A : Type ℓ} (b : Bool) (message : String) (m : Result A)
    → b ≡ false
    → (trap_if b message >> m) ≡ m
trap_if-eq b message m e = ap (λ c. trap_if c message >> m) e

pub assert-eq-ok {ℓ} :
    {A : Type ℓ} (b : Bool) (message : String) (m : Result A) {a : A}
    → (assert b message >> m) ≡ ok a
    → (b ≡ true) × (m ≡ ok a)
assert-eq-ok true message m e = (refl, e)
assert-eq-ok false message m e = cc

-- `P` holds of the value, if one is returned.
abbrev pub Ensures {ℓ κ} : {A : Type ℓ} → (A → Type κ) → Result A → Type κ
Ensures P (ok a) = P a
Ensures P (err e) = Unit

-- A value is returned, and `P` holds of it.
abbrev pub Returns {ℓ κ} : {A : Type ℓ} → (A → Type κ) → Result A → Type (ℓ ⊔ κ)
Returns {A} P r = (a : A) × (r ≡ ok a) × P a

module _ {ℓ κ μ ν} {A : Type ℓ} {B : Type κ} (P : A → Type μ) (Q : B → Type ν) where
  pub Ensures-bind :
      (m : Result A) (f : A → Result B)
      → Ensures P m
      → ((a : A) → P a → Ensures Q (f a))
      → Ensures Q (m >>= f)
  Ensures-bind (ok a) f h k = k a h
  Ensures-bind (err e) f h k = tt

  pub Returns-bind :
      (m : Result A) (f : A → Result B)
      → Returns P m
      → ((a : A) → P a → Returns Q (f a))
      → Returns Q (m >>= f)
  Returns-bind m f (a, e, h) k = subst (λ r. Returns Q (r >>= f)) (sym e) (k a h)

pub Returns-assert {ℓ κ} :
    {A : Type ℓ} (P : A → Type κ) (b : Bool) (message : String) (m : Result A)
    → b ≡ true
    → Returns P m
    → Returns P (assert b message >> m)
Returns-assert P true message m e h = h
Returns-assert P false message m e h = cc

pub Ensures-ok {ℓ κ} :
    {A : Type ℓ} (P : A → Type κ) (r : Result A) {a : A} → Ensures P r → r ≡ ok a → P a
Ensures-ok P r h e = subst (Ensures P) e h
