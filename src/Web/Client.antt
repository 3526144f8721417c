-- ===== src/Web/Client.antt =====
-- apps/web/lib/api.ts, api: a request and what the caller gets; and fetchQueueState of lib/queue.ts.
pub mod Reading
pub mod Examples
use antretix.Common.{
  ℕ, Bool, true, false, not, ◌&&◌, ◌||◌, Option, none, some, List, [], ◌∷◌, leb, ltb, ◌==◌,
  if◌then◌else◌,
}
use antretix.Shared.Json.{Text, Value, Zod, null}
use antretix.Api.Replies.{Json, Response}
use antretix.Web.Schemas.{PageState, status_response, api_error_schema}

-- The code of an ApiError.
pub data ClientCode (T : Type 0) : Type 0 where
  network_error http_error : ClientCode T
  body_code : Text T → ClientCode T

pub record ApiError (T : Type 0) : Type 0 where
  pub status : ℕ
  pub code : ClientCode T
  pub retry_after_sec : Option ℕ

-- How a call of api ends: with the body that the schema reads, with an ApiError, or with the error of
-- the schema.
pub data Fetched (T A : Type 0) : Type 0 where
  got : A → Fetched T A
  refused : ApiError T → Fetched T A
  malformed : Fetched T A

-- response.ok
abbrev pub is_ok : ℕ → Bool
is_ok status = leb 200 status && ltb status 300

abbrev pub includes : List ℕ → ℕ → Bool
includes [] n = false
includes (m ∷ ms) n = (m == n) || includes ms n

abbrev code_or_http : {T : Type 0} → Option (Text T) → ClientCode T
code_or_http none = http_error
code_or_http (some c) = body_code c

-- A body that is no JSON counts as null.
abbrev or_null : {T : Type 0} → Option (Value T) → Value T
or_null none = null
or_null (some v) = v

abbrev got_or_malformed : {T A : Type 0} → Option A → Fetched T A
got_or_malformed none = malformed
got_or_malformed (some a) = got a

module _ {T : Type 0} (Z : Zod T) (J : Json T) where
  open J use {Body, parse}

  api_error : ℕ → Option ℕ → Value T → ApiError T
  api_error status retry_after payload = record {
    status = status;
    code = code_or_http (api_error_schema Z payload);
    retry_after_sec = retry_after;
  }

  -- `none` is a request that fetch could not send.
  unfoldable pub api :
      {A : Type 0} → (Value T → Option A) → List ℕ → Option (Response Body) → Fetched T A
  unfolding api_error
  api schema accept_status none =
      refused (record { status = 0; code = network_error; retry_after_sec = none })
  api schema accept_status (some r) =
      let payload = or_null (parse r.body) in
      if not (is_ok r.status) && not (includes accept_status r.status)
      then refused (api_error r.status r.retry_after payload)
      else got_or_malformed (schema payload)

  -- The body of /queue/status is its state, also where the status is 410.
  unfoldable pub fetch_queue_state : Option (Response Body) → Fetched T (PageState T)
  unfolding api
  fetch_queue_state response = api (status_response Z) (410 ∷ []) response
