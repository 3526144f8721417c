-- ===== src/Api/Replies.antt =====
-- apps/api/src/app.ts, setErrorHandler: how the end of a handler becomes a response; and the body of
-- GET /events/:id/queue/status in routes/queue.ts. JSON.stringify and JSON.parse are a parameter.
use antretix.Common.{ℕ, ◌≡◌, Option, none, some}
use antretix.Common.Int.{pos}
use antretix.Shared.Constants.{QueueStatus}
use antretix.Shared.Errors.{
  ErrorCode, internal_error, status_code, Outcome, returned, thrown, failed,
}
use antretix.Shared.Eta.{EtaRange}
use antretix.Shared.Json.{
  Text, status_text, state_text, error_text, instant, token_text, other_text, StateName, Name,
  Value, Members, null, bool, number, text, object, end, member,
}
use antretix.Core.Queue.{
  QueueState, not_started, waiting_room, waiting, admitted, not_in_queue, sold_out_state,
}

-- The text of a body: what is written is read back.
pub record Json (T : Type 0) : Type 1 where
  pub Body : Type 0
  pub stringify : Value T → Body
  pub parse : Body → Option (Value T)
  pub parse-stringify : (v : Value T) → parse (stringify v) ≡ some v

pub record Response (Body : Type 0) : Type 0 where
  pub status : ℕ
  pub body : Body
  pub retry_after : Option ℕ

module _ {T : Type 0} where
  abbrev pub code_text : ErrorCode → Text T
  code_text ErrorCode.sold_out = status_text QueueStatus.sold_out
  code_text e = error_text e

  -- { code, message }; what the message says is left out.
  abbrev pub error_body : ErrorCode → Value T
  error_body e =
      object (member Name.code (text (code_text e)) (member Name.message (text (other_text 0)) end))

  abbrev eta_value : Option EtaRange → Value T
  eta_value none = null
  eta_value (some eta) =
      object
        (member Name.min_sec (number eta.min_sec) (member Name.max_sec (number eta.max_sec) end))

  abbrev state_name : QueueState T → Text T
  state_name (not_started p o) = state_text StateName.not_started
  state_name (waiting_room o) = state_text StateName.waiting_room
  state_name (waiting w) = state_text StateName.waiting
  state_name (admitted t e) = state_text StateName.admitted
  state_name (not_in_queue q) = state_text StateName.not_in_queue
  state_name sold_out_state = status_text QueueStatus.sold_out

  -- What getQueueState returns beside the property `state`.
  abbrev state_members : QueueState T → Members T
  state_members (not_started p o) =
      member Name.pre_queue_at (text (instant (pos p)))
        (member Name.sale_opens_at (text (instant (pos o))) end)
  state_members (waiting_room o) = member Name.sale_opens_at (text (instant (pos o))) end
  state_members (waiting w) = member Name.position (number w.position) (
      member Name.ahead (number w.ahead) (
        member Name.total (number w.total) (
          member Name.eta (eta_value w.eta) (
            member Name.paused (bool w.paused)
              (member Name.stock_exhausted (bool w.stock_exhausted) end)))))
  state_members (admitted t e) =
      member Name.token (text (token_text t)) (member Name.expires_at (text (instant e)) end)
  state_members (not_in_queue q) = member Name.queue_status (text (status_text q)) end
  state_members sold_out_state = end

  abbrev pub state_value : QueueState T → Value T
  state_value a = object (member Name.state (text (state_name a)) (state_members a))

  -- The body with a state; the one with the status 410 has a message too.
  abbrev pub status_body : QueueState T → Value T
  status_body sold_out_state = object (
      member Name.code (text (status_text QueueStatus.sold_out)) (
        member Name.message (text (other_text 0))
          (member Name.state (state_value sold_out_state) end)))
  status_body a =
      object (member Name.code (text (state_name a)) (member Name.state (state_value a) end))

  module _ (J : Json T) where
    open J use {Body, stringify}

    abbrev pub error_reply : ErrorCode → Response Body
    error_reply e = record {
      status = status_code e;
      body = stringify (error_body e);
      retry_after = none;
    }

    -- The response of a handler that answers with a status.
    unfoldable pub reply : {A : Type 0} → (A → Value T) → Outcome (ℕ × A) → Response Body
    reply write (returned (status, a)) = record {
      status = status;
      body = stringify (write a);
      retry_after = none;
    }
    reply write (thrown e) = error_reply e
    reply write failed = error_reply internal_error
