-- ===== src/Base/Outcome.antt =====
-- What a call of the program comes to: a value, or an exception.
use mathlib.Core.Path.{◌≡◌}

-- The last four are FastAPI's `HTTPException` with the codes 404, 409, 403 and 422.
pub data Error : Type 0 where
  integrity_error value_error key_error overflow_error file_not_found : Error
  json_error type_error attribute_error data_error index_error : Error
  assertion_error injected_fault : Error
  not_found conflict forbidden unprocessable : Error

pub data Outcome {ℓ} (A : Type ℓ) : Type ℓ where
  ok : A → Outcome A
  err : Error → Outcome A

infixl 5 ◌>>=◌
abbrev pub ◌>>=◌ {ℓ κ} : {A : Type ℓ} {B : Type κ} → Outcome A → (A → Outcome B) → Outcome B
ok a >>= f = f a
err e >>= f = err e

-- An exception is no value.
pub err_ok {ℓ} : {A : Type ℓ} {e : Error} {a : A} → ◌≡◌ {A = Outcome A} (err e) (ok a) → ⊥
err_ok h = cc
