-- ===== src/Shared/Errors.antt =====
-- packages/shared/src/errors.ts: the codes of AppError and their HTTP statuses.
use antretix.Common.{ℕ, Option, none, some}

pub data ErrorCode : Type 0 where
  validation_error turnstile_failed unauthorized queue_token_required forbidden : ErrorCode
  not_found not_in_queue queue_not_open out_of_stock limit_exceeded conflict : ErrorCode
  sold_out rate_limited internal_error : ErrorCode

-- ERROR_CODES
unfoldable pub status_code : ErrorCode → ℕ
status_code validation_error = 400
status_code turnstile_failed = 400
status_code unauthorized = 401
status_code queue_token_required = 401
status_code forbidden = 403
status_code not_found = 404
status_code not_in_queue = 404
status_code queue_not_open = 409
status_code out_of_stock = 409
status_code limit_exceeded = 409
status_code conflict = 409
status_code sold_out = 410
status_code rate_limited = 429
status_code internal_error = 500

-- How an operation ends: with its value, with an AppError, or with any other error.
pub data Outcome (A : Type 0) : Type 0 where
  returned : A → Outcome A
  thrown : ErrorCode → Outcome A
  failed : Outcome A

-- What follows runs only after a value.
infixl 5 ◌>>=◌
abbrev pub ◌>>=◌ : {A B : Type 0} → Outcome A → (A → Outcome B) → Outcome B
returned a >>= f = f a
thrown e >>= f = thrown e
failed >>= f = failed

-- The value that a schema reads from the input; what it refuses is answered as VALIDATION_ERROR.
abbrev pub parsed : {A : Type 0} → Option A → Outcome A
parsed none = thrown validation_error
parsed (some a) = returned a
