-- ===== src/Api/Routes/Waiting.antt =====
-- apps/api/src/routes/queue.ts: joining the queue, asking for the state and leaving. A handler
-- reads the clock once. The stream of
-- server-sent events repeats the question for the state, and is left out.
use antretix.Common.{ℕ, Bool, Option}
use antretix.Shared.Double.{Double}
use antretix.Shared.Errors.{
  Outcome, returned, thrown, failed, parsed, sold_out, queue_not_open, ◌>>=◌,
}
use antretix.Redis.{Redis}
use antretix.Lua.Queue.{JoinCode, join}
use antretix.Core.Events.{EventMeta}
use antretix.Core.Queue.{QueueTokenClaims, QueueState, sold_out_state, get_queue_state, leave_queue}
use antretix.Api.Auth.{AuthUser, require_user}
use antretix.Api.Protection.{TurnstileConfig, TurnstileToken, verify_turnstile}
use antretix.Api.Routes.{require_event}

-- A request to join: what the schemas make of it, and where it comes from.
pub record JoinRequest : Type 0 where
  pub event_id : Option ℕ
  pub auth_user : Option AuthUser
  pub turnstile_token : Option TurnstileToken
  pub address : ℕ

-- How a request to join is answered: let in already, or in the queue, each with the state.
pub data JoinAnswer (T : Type 0) : Type 0 where
  admitted_already queued : QueueState T → JoinAnswer T

-- The guards of POST /events/:id/queue, in their order.
unfoldable pub check_join :
    (ℕ → ℕ → ℕ → Option Bool)
    → TurnstileConfig
    → (ℕ → Option EventMeta)
    → JoinRequest
    → Outcome (AuthUser × EventMeta)
check_join siteverify config events request = do
  event_id ← parsed request.event_id
  user ← require_user request.auth_user
  token ← parsed request.turnstile_token
  passed ← verify_turnstile siteverify config token request.address
  meta ← require_event events event_id
  returned (user, meta)

-- The error that a code of join.lua is answered with, if it is.
abbrev pub join_error : JoinCode → Outcome JoinCode
join_error JoinCode.sold_out = thrown sold_out
join_error JoinCode.closed = thrown queue_not_open
join_error JoinCode.not_open = thrown queue_not_open
join_error JoinCode.admitted = returned JoinCode.admitted
join_error JoinCode.prequeue = returned JoinCode.prequeue
join_error JoinCode.queued = returned JoinCode.queued

abbrev join_answer : {T : Type 0} → JoinCode → QueueState T → JoinAnswer T
join_answer JoinCode.admitted state = admitted_already state
join_answer _ state = queued state

module _ (D : Double) (R : Redis) {T : Type 0} (sign : QueueTokenClaims → T) where
  open R use {Store}

  join_checked : Store → AuthUser × EventMeta → ℕ → ℕ → Outcome (JoinAnswer T) × Store
  join_checked s (user, meta) now random =
      let (reply, s1) = join R s meta.event.id user.sub now random in
      let (state, s2) = get_queue_state D R sign s1 meta user.sub now in
      elim (join_error reply.code) [
        | returned code ↦ (returned (join_answer code state), s2)
        | thrown e ↦ (thrown e, s1)
        | failed ↦ (failed, s1)
      ]

  -- POST /events/:id/queue
  unfoldable pub post_queue :
      (ℕ → ℕ → ℕ → Option Bool)
      → TurnstileConfig
      → (ℕ → Option EventMeta)
      → Store
      → JoinRequest
      → ℕ
      → ℕ
      → Outcome (JoinAnswer T) × Store
  unfolding check_join join_checked
  post_queue siteverify config events s request now random =
      elim (check_join siteverify config events request) [
        | returned checked ↦ join_checked s checked now random
        | thrown e ↦ (thrown e, s)
        | failed ↦ (failed, s)
      ]

-- The HTTP status of a state: 410 for an event that is sold out.
abbrev pub state_status : {T : Type 0} → QueueState T → ℕ
state_status sold_out_state = 410
state_status _ = 200

unfoldable pub check_status :
    (ℕ → Option EventMeta) → Option ℕ → Option AuthUser → Outcome (AuthUser × EventMeta)
check_status events event_id auth_user = do
  event ← parsed event_id
  user ← require_user auth_user
  meta ← require_event events event
  returned (user, meta)

module _ (D : Double) (R : Redis) {T : Type 0} (sign : QueueTokenClaims → T) where
  open R use {Store}

  pub state_for : Store → AuthUser × EventMeta → ℕ → Outcome (ℕ × QueueState T) × Store
  state_for s (user, meta) now =
      let (state, s1) = get_queue_state D R sign s meta user.sub now in
      (returned (state_status state, state), s1)

  -- GET /events/:id/queue/status
  unfoldable pub get_status :
      (ℕ → Option EventMeta)
      → Store
      → Option ℕ
      → Option AuthUser
      → ℕ
      → Outcome (ℕ × QueueState T) × Store
  unfolding check_status state_for
  get_status events s event_id auth_user now = elim (check_status events event_id auth_user) [
    | returned checked ↦ state_for s checked now
    | thrown e ↦ (thrown e, s)
    | failed ↦ (failed, s)
  ]

check_leave : Option ℕ → Option AuthUser → Outcome (ℕ × ℕ)
check_leave event_id auth_user = do
  event ← parsed event_id
  user ← require_user auth_user
  returned (event, user.sub)

module _ (R : Redis) where
  open R use {Store}

  -- DELETE /events/:id/queue
  unfoldable pub delete_queue : Store → Option ℕ → Option AuthUser → Outcome Unit × Store
  unfolding check_leave
  delete_queue s event_id auth_user = elim (check_leave event_id auth_user) [
    | returned whose ↦ (returned tt, leave_queue R s whose.0 whose.1)
    | thrown e ↦ (thrown e, s)
    | failed ↦ (failed, s)
  ]
