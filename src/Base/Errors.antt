-- ===== src/Base/Errors.antt =====
-- Exceptions as values. A constructor for each class of `std::` exception that the program throws;
-- its argument is the message.
use Prim.Native.String.{String}
use mathlib.Core.Path.{◌≡◌, refl}
use mathlib.Core.Logic.{◌⊎◌, inl, inr}
use mathlib.Core.Bool.{Bool, true, false}

pub data Exception : Type 0 where
  runtime_error invalid_argument overflow_error length_error logic_error system_error :
      String → Exception

-- What a function that may throw comes to.
pub data Result {ℓ} (A : Type ℓ) : Type ℓ where
  err : Exception → Result A
  ok : A → Result A

-- `if (!condition) throw e;`
abbrev pub require : Bool → Exception → Result (Unit {0})
require false e = err e
require true e = ok tt

-- `if (condition) throw e;`
abbrev pub throw_if : Bool → Exception → Result (Unit {0})
throw_if false e = ok tt
throw_if true e = err e

-- The statements after one that may throw.
infixl 5 ◌>>=◌
abbrev pub ◌>>=◌ {ℓ κ} : {A : Type ℓ} {B : Type κ} → Result A → (A → Result B) → Result B
err thrown >>= next = err thrown
ok value >>= next = next value

infixl 5 ◌>>◌
abbrev pub ◌>>◌ {ℓ} : {B : Type ℓ} → Result (Unit {0}) → Result B → Result B
first >> second = first >>= λ done. second

pub Result-cases {ℓ} :
    {A : Type ℓ} (r : Result A) → ((a : A) × (r ≡ ok a)) ⊎ ((e : Exception) × (r ≡ err e))
Result-cases (ok a) = inl (a, refl)
Result-cases (err e) = inr (e, refl)

-- What comes before a normal end has ended normally.
pub ok_before {ℓ κ} :
    {B : Type κ} {A : Type ℓ} (next : A → Result B) (before : Result A) {last : B}
    → (before >>= next) ≡ ok last
    → (value : A) × (next value ≡ ok last) × (before ≡ ok value)
ok_before next (err thrown) e = cc
ok_before next (ok value) e = (value, e, refl)
