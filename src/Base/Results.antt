-- ===== src/Base/Results.antt =====
-- The exceptions of domain/errors.py and of Python itself, and code that returns a value or raises.
use Prim.Native.String.{String}
use mathlib.Core.Path.{◌≡◌, refl}
use mathlib.Core.Logic.{◌⊎◌, inl, inr}

-- Request and selection errors carry their code, unavailability its failure reason.
pub data Error : Type 0 where
  quote_request : String → Error
  candle_request : String → Error
  economic_calendar_request : String → Error
  provider_selection : String → Error
  stream_request : String → Error
  historical_price_not_found : Error
  provider_unavailable : String → Error
  database_unavailable : String → Error
  overflow_error value_error key_error out_of_fuel : Error

-- What a call gives: its value, or the exception that it raised.
pub data Result {ℓ} (A : Type ℓ) : Type ℓ where
  ok : A → Result A
  err : Error → Result A

pub Result-cases {ℓ} :
    {A : Type ℓ} (r : Result A) → ((a : A) × (r ≡ ok a)) ⊎ ((e : Error) × (r ≡ err e))
Result-cases (ok a) = inl (a, refl)
Result-cases (err e) = inr (e, refl)

pub ok-injective {ℓ} : {A : Type ℓ} {a b : A} → ok a ≡ ok b → a ≡ b
ok-injective h = cc

module _ {ℓ κ} {A : Type ℓ} {B : Type κ} where
  -- Runs the rest only if the first action raised nothing.
  infixl 5 ◌>>=◌
  abbrev pub ◌>>=◌ : Result A → (A → Result B) → Result B
  err x >>= rest = err x
  ok value >>= rest = rest value

  pub >>=-eq-ok :
      (m : Result A) (rest : A → Result B) {b : B}
      → (m >>= rest) ≡ ok b
      → (a : A) × (m ≡ ok a) × (rest a ≡ ok b)
  >>=-eq-ok (err x) rest raised = cc
  >>=-eq-ok (ok value) rest returned = (value, refl, returned)

infixl 5 ◌>>◌
abbrev pub ◌>>◌ {ℓ} : {B : Type ℓ} → Result (Unit {0}) → Result B → Result B
err x >> rest = err x
ok done >> rest = rest

pub err_not_ok {ℓ} : {A : Type ℓ} {e : Error} {a : A} → err e ≡ ok a → ⊥
err_not_ok h = cc
