-- ===== src/Shared/Json.antt =====
-- JSON as JSON.stringify writes it and JSON.parse reads it: the values, the property names and the
-- texts that the API and the pages use. A number is one that the API sends.
use antretix.Common.{ℕ, ◌≡◌, Bool, true, false, Option, none, some, if◌then◌else◌}
use antretix.Common.Int.{ℤ}
use antretix.Shared.Constants.{QueueStatus}
use antretix.Shared.Errors.{ErrorCode}

-- The names of the states of a user; SOLD_OUT is the name of a status as well.
pub data StateName : Type 0 where
  not_started waiting_room waiting admitted not_in_queue : StateName

-- A text: the name of a status, of a state, or of an error, the ISO form of a time in milliseconds,
-- a token, or another. Equal texts are one constructor: SOLD_OUT is a status only.
pub data Text (T : Type 0) : Type 0 where
  status_text : QueueStatus → Text T
  state_text : StateName → Text T
  error_text : ErrorCode → Text T
  instant : ℤ → Text T
  token_text : T → Text T
  other_text : ℕ → Text T

pub data Name : Type 0 where
  code message state pre_queue_at sale_opens_at position ahead total eta min_sec max_sec : Name
  paused stock_exhausted token expires_at queue_status : Name

mutual
  pub data Value (T : Type 0) : Type 0 where
    null : Value T
    bool : Bool → Value T
    number : ℕ → Value T
    text : Text T → Value T
    object : Members T → Value T

  pub data Members (T : Type 0) : Type 0 where
    end : Members T
    member : Name → Value T → Members T → Members T

abbrev same_name : Name → Name → Bool
same_name Name.code Name.code = true
same_name Name.message Name.message = true
same_name Name.state Name.state = true
same_name Name.pre_queue_at Name.pre_queue_at = true
same_name Name.sale_opens_at Name.sale_opens_at = true
same_name Name.position Name.position = true
same_name Name.ahead Name.ahead = true
same_name Name.total Name.total = true
same_name Name.eta Name.eta = true
same_name Name.min_sec Name.min_sec = true
same_name Name.max_sec Name.max_sec = true
same_name Name.paused Name.paused = true
same_name Name.stock_exhausted Name.stock_exhausted = true
same_name Name.token Name.token = true
same_name Name.expires_at Name.expires_at = true
same_name Name.queue_status Name.queue_status = true
same_name _ _ = false

-- The value of a property, if it is there.
abbrev pub field : {T : Type 0} → Name → Members T → Option (Value T)
field name end = none
field name (member other v ms) = if same_name name other then some v else field name ms

-- z.string(), z.number(), z.boolean() and z.object() on a property that may be missing, with what
-- the documentation of Zod promises: a value of the kind passes as it is.
pub record Zod (T : Type 0) : Type 0 where
  pub as_string : Option (Value T) → Option (Text T)
  pub as_number : Option (Value T) → Option ℕ
  pub as_boolean : Option (Value T) → Option Bool
  pub as_object : Option (Value T) → Option (Members T)
  pub as_string_text : (t : Text T) → as_string (some (text t)) ≡ some t
  pub as_number_number : (n : ℕ) → as_number (some (number n)) ≡ some n
  pub as_boolean_bool : (b : Bool) → as_boolean (some (bool b)) ≡ some b
  pub as_object_object : (ms : Members T) → as_object (some (object ms)) ≡ some ms
