-- ===== src/Web/Client/Reading.antt =====
-- A page is told of the queue what the server has worked out.
use antretix.Common.{
  ℕ, ◌≡◌, refl, not, ◌&&◌, false, [], ◌∷◌, Option, none, some, Option-cases, inl, inr,
}
use antretix.Shared.Double.{Double}
use antretix.Shared.Errors.{
  ErrorCode, internal_error, validation_error, unauthorized, not_found, status_code, Outcome,
  returned, thrown, failed, parsed, ◌>>=◌,
}
use antretix.Redis.{Redis}
use antretix.Database.Schema.{EventStatus}
use antretix.Core.Events.{EventMeta}
use antretix.Core.Queue.{
  QueueTokenClaims, QueueState, get_queue_state, not_started, waiting_room, waiting, admitted,
  not_in_queue, sold_out_state,
}
use antretix.Api.Auth.{AuthUser, require_user}
use antretix.Shared.Json.{instant, token_text, Zod}
use antretix.Common.Int.{pos}
use antretix.Api.Replies.{code_text, error_body, status_body, Json, reply}
use antretix.Web.Schemas.{PageState, status_response, queue_state_schema, api_error_schema}
use antretix.Api.Routes.{require_event, public_event}
use antretix.Api.Routes.Waiting.{state_status, check_status, get_status}
use antretix.Web.Client.{body_code, Fetched, got, refused, is_ok, includes, fetch_queue_state}

-- A state as a page has it.
abbrev pub page_state : {T : Type 0} → QueueState T → PageState T
page_state (not_started p o) = PageState.not_started (instant (pos p)) (instant (pos o))
page_state (waiting_room o) = PageState.waiting_room (instant (pos o))
page_state (waiting w) = PageState.waiting w
page_state (admitted t e) = PageState.admitted (token_text t) (instant e)
page_state (not_in_queue q) = PageState.not_in_queue q
page_state sold_out_state = PageState.sold_out_state

-- What a page gets of the end of a handler.
abbrev pub seen_error : {T : Type 0} → ErrorCode → Fetched T (PageState T)
seen_error e =
    refused
      (record { status = status_code e; code = body_code (code_text e); retry_after_sec = none })

abbrev pub seen : {T : Type 0} → Outcome (ℕ × QueueState T) → Fetched T (PageState T)
seen (returned (status, a)) = got (page_state a)
seen (thrown e) = seen_error e
seen failed = seen_error internal_error

-- The errors of these guards.
data IsGuard : ErrorCode → Type 0 where
  bad_input : IsGuard validation_error
  no_login : IsGuard unauthorized
  no_event : IsGuard not_found

abbrev Guarded : {A : Type 0} → Outcome A → Type 0
Guarded (returned a) = Unit
Guarded (thrown e) = IsGuard e
Guarded failed = ⊥

Guarded-bind :
    {A B : Type 0} (o : Outcome A) (f : A → Outcome B)
    → Guarded o
    → ((a : A) → Guarded (f a))
    → Guarded (o >>= f)
Guarded-bind (returned a) f g h = h a
Guarded-bind (thrown e) f g h = g
Guarded-bind failed f g h = g

parsed-Guarded : {A : Type 0} (o : Option A) → Guarded (parsed o)
parsed-Guarded none = bad_input
parsed-Guarded (some a) = tt

require_user-Guarded : (o : Option AuthUser) → Guarded (require_user o)
unfolding require_user
require_user-Guarded none = no_login
require_user-Guarded (some u) = tt

public_event-Guarded : (meta : EventMeta) (st : EventStatus) → Guarded (public_event meta st)
public_event-Guarded meta EventStatus.draft = no_event
public_event-Guarded meta EventStatus.scheduled = tt
public_event-Guarded meta EventStatus.on_sale = tt
public_event-Guarded meta EventStatus.sold_out = tt
public_event-Guarded meta EventStatus.ended = tt

require_event-Guarded : (events : ℕ → Option EventMeta) (e : ℕ) → Guarded (require_event events e)
require_event-Guarded events e = by_meta (events e)
  where
    by_meta :
        (m : Option EventMeta)
        → Guarded
            (elim m [ none ↦ thrown not_found | some meta ↦ public_event meta meta.event.status ])
    by_meta none = no_event
    by_meta (some meta) = public_event-Guarded meta meta.event.status

check_status-Guarded :
    (events : ℕ → Option EventMeta) (event_id : Option ℕ) (auth_user : Option AuthUser)
    → Guarded (check_status events event_id auth_user)
unfolding check_status
check_status-Guarded events event_id auth_user =
    Guarded-bind (parsed event_id) _ (parsed-Guarded event_id) λ e.
      Guarded-bind (require_user auth_user) _ (require_user-Guarded auth_user)
        λ user. Guarded-bind (require_event events e) _ (require_event-Guarded events e) λ meta. tt

module _ {T : Type 0} (Z : Zod T) where
  open Z use {as_string_text, as_number_number, as_boolean_bool, as_object_object}

  -- The schema reads every state that is written.
  status_response-status_body :
      (a : QueueState T) → status_response Z (status_body a) ≡ some (page_state a)
  unfolding status_response queue_state_schema
  status_response-status_body (not_started p o) = simp (as_object_object, as_string_text) refl
  status_response-status_body (waiting_room o) = simp (as_object_object, as_string_text) refl
  status_response-status_body (waiting w) = elim (Option-cases w.eta) [
    | inl unknown ↦
        rw unknown (simp (as_object_object, as_string_text, as_number_number, as_boolean_bool) refl)
    | inr (range, known) ↦
        rw known (simp (as_object_object, as_string_text, as_number_number, as_boolean_bool) refl)
  ]
  status_response-status_body (admitted t e) = simp (as_object_object, as_string_text) refl
  status_response-status_body (not_in_queue q) = simp (as_object_object, as_string_text) refl
  status_response-status_body (sold_out_state) = simp (as_object_object, as_string_text) refl

module _ {T : Type 0} (Z : Zod T) (J : Json T) where
  open J use {parse-stringify}
  open Z use {as_string_text, as_object_object}

  fetch_accepted :
      (status : ℕ) (a : QueueState T)
      → not (is_ok status) && not (includes (410 ∷ []) status) ≡ false
      → fetch_queue_state Z J (some (reply J status_body (returned (status, a))))
        ≡ got (page_state a)
  unfolding fetch_queue_state reply
  fetch_accepted status a accepted =
      rw (accepted, parse-stringify (status_body a), status_response-status_body Z a) refl

  fetch_state :
      (a : QueueState T)
      → fetch_queue_state Z J (some (reply J status_body (returned (state_status a, a))))
        ≡ got (page_state a)
  fetch_state (not_started p o) = fetch_accepted 200 (not_started p o) refl
  fetch_state (waiting_room o) = fetch_accepted 200 (waiting_room o) refl
  fetch_state (waiting w) = fetch_accepted 200 (waiting w) refl
  fetch_state (admitted t e) = fetch_accepted 200 (admitted t e) refl
  fetch_state (not_in_queue q) = fetch_accepted 200 (not_in_queue q) refl
  fetch_state sold_out_state = fetch_accepted 410 sold_out_state refl

  fetch_error :
      (e : ErrorCode)
      → IsGuard e
      → fetch_queue_state Z J (some (reply J status_body (thrown e))) ≡ seen_error e
  unfolding fetch_queue_state reply status_code api_error_schema
  fetch_error e bad_input =
      rw (parse-stringify (error_body validation_error))
        (simp (as_object_object, as_string_text) refl)
  fetch_error e no_login =
      rw (parse-stringify (error_body unauthorized)) (simp (as_object_object, as_string_text) refl)
  fetch_error e no_event =
      rw (parse-stringify (error_body not_found)) (simp (as_object_object, as_string_text) refl)

  module _ (D : Double) (R : Redis) (sign : QueueTokenClaims → T) where
    open R use {Store}

    -- A page that asks for its state in the queue gets what the server worked out for it, also when
    -- that is SOLD_OUT with the status 410, and otherwise the code and the status of the guard that
    -- refused the request: the schemas of the page read every body that the API writes.
    pub fetch_queue_state-get_status :
        (events : ℕ → Option EventMeta) (s : Store) (event_id : Option ℕ)
        (auth_user : Option AuthUser) (now : ℕ)
        → let outcome = (get_status D R sign events s event_id auth_user now).0 in
          fetch_queue_state Z J (some (reply J status_body outcome)) ≡ seen outcome
    unfolding get_status
    fetch_queue_state-get_status events s event_id auth_user now =
        by_check (check_status events event_id auth_user)
          (check_status-Guarded events event_id auth_user) refl
      where
        by_check :
            (checked : Outcome (AuthUser × EventMeta))
            → Guarded checked
            → check_status events event_id auth_user ≡ checked
            → let outcome = (get_status D R sign events s event_id auth_user now).0 in
              fetch_queue_state Z J (some (reply J status_body outcome)) ≡ seen outcome
        by_check (returned (user, meta)) g e =
            rw (get_status, e) (fetch_state (get_queue_state D R sign s meta user.sub now).0)
        by_check (thrown code) g e = rw (get_status, e) (fetch_error code g)
        by_check failed g e = absurd g
