-- ===== src/Web/Schemas.antt =====
-- packages/shared/src/types.ts: queueStateSchema and apiErrorSchema, which the pages read the
-- answers of the API with, and statusResponse of apps/web/lib/queue.ts.
use antretix.Common.{Option, none, some, ◌>>=◌}
use antretix.Shared.Constants.{QueueStatus}
use antretix.Shared.Eta.{EtaRange}
use antretix.Shared.Json.{
  Text, status_text, state_text, StateName, Name, Value, Members, null, field, Zod,
}
use antretix.Core.Queue.{Waiting}

-- The state of a user as a page has it: its times are texts.
pub data PageState (T : Type 0) : Type 0 where
  not_started : Text T → Text T → PageState T
  waiting_room : Text T → PageState T
  waiting : Waiting → PageState T
  admitted : Text T → Text T → PageState T
  not_in_queue : QueueStatus → PageState T
  sold_out_state : PageState T

module _ {T : Type 0} (Z : Zod T) where
  open Z use {as_string, as_number, as_boolean, as_object}

  -- etaRangeSchema.nullable()
  abbrev eta_range : Option (Value T) → Option (Option EtaRange)
  eta_range (some null) = some none
  eta_range v = do
    ms ← as_object v
    min_sec ← as_number (field Name.min_sec ms)
    max_sec ← as_number (field Name.max_sec ms)
    some (some (record { min_sec = min_sec; max_sec = max_sec }))

  -- z.enum(QUEUE_STATUSES)
  abbrev as_status : Text T → Option QueueStatus
  as_status (status_text q) = some q
  as_status _ = none

  -- The object that the property `state` tells of.
  abbrev state_object : Text T → Members T → Option (PageState T)
  state_object (state_text StateName.not_started) ms = do
    pre_queue_at ← as_string (field Name.pre_queue_at ms)
    sale_opens_at ← as_string (field Name.sale_opens_at ms)
    some (not_started pre_queue_at sale_opens_at)
  state_object (state_text StateName.waiting_room) ms = do
    sale_opens_at ← as_string (field Name.sale_opens_at ms)
    some (waiting_room sale_opens_at)
  state_object (state_text StateName.waiting) ms = do
    position ← as_number (field Name.position ms)
    ahead ← as_number (field Name.ahead ms)
    total ← as_number (field Name.total ms)
    eta ← eta_range (field Name.eta ms)
    paused ← as_boolean (field Name.paused ms)
    stock_exhausted ← as_boolean (field Name.stock_exhausted ms)
    some (
        waiting (record {
          position = position;
          ahead = ahead;
          total = total;
          eta = eta;
          paused = paused;
          stock_exhausted = stock_exhausted;
        }))
  state_object (state_text StateName.admitted) ms = do
    token ← as_string (field Name.token ms)
    expires_at ← as_string (field Name.expires_at ms)
    some (admitted token expires_at)
  state_object (state_text StateName.not_in_queue) ms = do
    name ← as_string (field Name.queue_status ms)
    status ← as_status name
    some (not_in_queue status)
  state_object (status_text QueueStatus.sold_out) ms = some sold_out_state
  state_object _ ms = none

  unfoldable pub queue_state_schema : Option (Value T) → Option (PageState T)
  queue_state_schema v = do
    ms ← as_object v
    name ← as_string (field Name.state ms)
    state_object name ms

  unfoldable pub status_response : Value T → Option (PageState T)
  unfolding queue_state_schema
  status_response v = do
    ms ← as_object (some v)
    code ← as_string (field Name.code ms)
    queue_state_schema (field Name.state ms)

  -- The code of an error.
  unfoldable pub api_error_schema : Value T → Option (Text T)
  api_error_schema v = do
    ms ← as_object (some v)
    code ← as_string (field Name.code ms)
    message ← as_string (field Name.message ms)
    some code
