-- ===== src/Response.antt =====
-- How a request ends: with a result, or with an error (backend/app/core/errors.py). An error leaves the
-- session without a commit. `integrity_error` is what the database raises on a row that breaks a
-- constraint, `schema_error` what the schema library raises on a value that breaks a field's bound, and
-- `value_error` a ValueError that nothing catches.
pub mod Laws
use nebula_grid.Base.{Bool, true, false}

pub data ServiceError : Type 0 where
  not_found unauthorized forbidden validation_error : ServiceError
  integrity_error schema_error value_error : ServiceError

pub data Response {ℓ} (A : Type ℓ) : Type ℓ where
  ok : A → Response A
  error : ServiceError → Response A

infixl 5 ◌>>=◌
abbrev pub ◌>>=◌ {ℓ κ} : {A : Type ℓ} {B : Type κ} → Response A → (A → Response B) → Response B
ok a >>= f = f a
error e >>= f = error e

-- A guard of the code: an error, if the test fails.
abbrev pub require : Bool → ServiceError → Response Bool
require true e = ok true
require false e = error e
