-- ===== src/Prelude/Outcome.antt =====
-- How a call of the library ends: a value, a C++ exception with its message, or undefined behaviour.
use Prim.Native.String.{String}
use mathlib.Core.Path.{◌≡◌, refl}
use mathlib.Core.Bool.{Bool, true, false}
use mathlib.Core.Option.{Option, none, some}

pub data Error : Type 0 where
  -- `throw std::runtime_error(message)`
  runtime_error : String → Error
  -- `CHECK(...)` and `LOG(FATAL)`, which throw `dmlc::Error`
  check_failed : String → Error
  -- a read or a write outside of an object, a dangling or null pointer
  fault : Error
  -- the model ran out of fuel; the termination theorems exclude it
  out_of_fuel : Error

-- `err` carries why there is no value.
pub data Result {ℓ} (A : Type ℓ) : Type ℓ where
  err : Error → Result A
  ok : A → Result A

-- A read that is undefined behaviour where there is nothing to read.
abbrev pub or_fault {ℓ} : {A : Type ℓ} → Option A → Result A
or_fault none = err fault
or_fault (some a) = ok a

-- `CHECK(test)`, or an early `throw`
abbrev pub guard : Bool → Error → Result (Unit {0})
guard false why = err why
guard true why = ok tt

infixl 5 ◌>>◌ ◌>>=◌
abbrev pub ◌>>=◌ {ℓ₁ ℓ₂} : {A : Type ℓ₁} {B : Type ℓ₂} → Result A → (A → Result B) → Result B
err why >>= next = err why
ok a >>= next = next a

abbrev pub ◌>>◌ {κ} : {B : Type κ} → Result (Unit {0}) → Result B → Result B
check >> next = check >>= λ u. next

-- A chain that ends with a value had one at each step.
pub >>=-eq-ok {ℓ₁ ℓ₂} :
    {X : Type ℓ₁} {Y : Type ℓ₂} (first : Result X) (rest : X → Result Y) {y : Y}
    → (first >>= rest) ≡ ok y
    → (x : X) × (first ≡ ok x) × (rest x ≡ ok y)
>>=-eq-ok (err why) rest q = cc
>>=-eq-ok (ok x) rest q = (x, refl, q)

pub ok-injective {ℓ} : {A : Type ℓ} {x y : A} → ok x ≡ ok y → x ≡ y
ok-injective h = cc
