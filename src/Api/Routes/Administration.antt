-- ===== src/Api/Routes/Administration.antt =====
-- apps/api/src/routes/admin.ts: the routes of an administrator. The list of events and the list of
-- suspicious addresses are left out.
use antretix.Common.{ℕ, ◌≡◌, refl, sym, ◌∙◌, ap, Option, none, some}
use antretix.Shared.Constants.{QueueStatus}
use antretix.Shared.Double.{Double}
use antretix.Shared.Errors.{Outcome, returned, thrown, failed, parsed, not_found, ◌>>=◌}
use antretix.Redis.{Redis}
use antretix.Database.Schema.{Database}
use antretix.Core.Context.{World}
use antretix.Core.Admin.{AdminMetrics, QueueControl, control_queue, get_admin_metrics}
use antretix.Core.Admin.Saving.{EventInput, Ids, upsert_event}
use antretix.Core.Events.{EventMeta, load_event_meta}
use antretix.Core.Events.Cache.{Cache, get_meta, invalidate, get_meta-invalidate}
use antretix.Api.Auth.{AuthUser, require_admin}

-- The value, or the error NOT_FOUND.
abbrev found : {A : Type 0} → Option A → Outcome A
found none = thrown not_found
found (some a) = returned a

-- GET /admin/events/:id
unfoldable pub get_admin_event : Database → Option AuthUser → Option ℕ → Outcome EventMeta
get_admin_event db auth_user id = do
  admin ← require_admin auth_user
  event_id ← parsed id
  found (load_event_meta db event_id)

-- The status 201 for a new event, 200 for a given one.
abbrev status_of_saving : Option ℕ → ℕ
status_of_saving none = 201
status_of_saving (some id) = 200

check_saving : Option AuthUser → Option EventInput → Outcome EventInput
check_saving auth_user body = do admin ← require_admin auth_user; parsed body

-- The guards of PATCH /admin/events/:id/queue, in their order.
unfoldable pub check_control :
    Option AuthUser → Option ℕ → Option QueueControl → Outcome (ℕ × QueueControl)
check_control auth_user id body = do
  admin ← require_admin auth_user
  event_id ← parsed id
  control ← parsed body
  returned (event_id, control)

-- A state of the API: the world and what EventMetaCache has.
pub record ApiState (R : Redis) : Type 0 where
  pub world : World R
  pub cache : Cache

module _ (R : Redis) where
  -- Once upsertEvent has ended.
  saved_event : ApiState R → Option ℕ → Outcome ℕ × World R → Outcome (ℕ × ℕ) × ApiState R
  saved_event st id (returned event_id, w) = (
    returned (status_of_saving id, event_id),
    record { world = w; cache = invalidate st.cache event_id },
  )
  saved_event st id (thrown e, w) = (thrown e, record st { world = w })
  saved_event st id (failed, w) = (failed, record st { world = w })

  -- POST /admin/events: the status and the identifier.
  unfoldable pub post_event :
      ApiState R → Option AuthUser → Option EventInput → Ids → ℕ → Outcome (ℕ × ℕ) × ApiState R
  unfolding check_saving saved_event
  post_event st auth_user body ids now = elim (check_saving auth_user body) [
    | returned input ↦ saved_event st input.id (upsert_event R st.world input ids now)
    | thrown e ↦ (thrown e, st)
    | failed ↦ (failed, st)
  ]

  -- Once controlQueue has ended.
  controlled :
      ApiState R → ℕ → Outcome (Option QueueStatus) × World R → Outcome QueueStatus × ApiState R
  controlled st event_id (returned (some q), w) =
      (returned q, record { world = w; cache = invalidate st.cache event_id })
  controlled st event_id (returned none, w) = (thrown not_found, record st { world = w })
  controlled st event_id (thrown e, w) = (thrown e, record st { world = w })
  controlled st event_id (failed, w) = (failed, record st { world = w })

  -- PATCH /admin/events/:id/queue
  unfoldable pub patch_queue :
      ApiState R
      → Option AuthUser
      → Option ℕ
      → Option QueueControl
      → Outcome QueueStatus × ApiState R
  unfolding controlled
  patch_queue st auth_user id body = elim (check_control auth_user id body) [
    | returned (event_id, control) ↦
        controlled st event_id (control_queue R st.world event_id control)
    | thrown e ↦ (thrown e, st)
    | failed ↦ (failed, st)
  ]

  controlled_shows :
      (st : ApiState R) (event_id : ℕ) (ended : Outcome (Option QueueStatus) × World R)
      (q : QueueStatus) (ttl now : ℕ)
      → (controlled st event_id ended).0 ≡ returned q
      → let st1 = (controlled st event_id ended).1 in
        (get_meta ttl st1.cache st1.world.db event_id now).0 ≡ load_event_meta st1.world.db event_id
  unfolding controlled
  controlled_shows st event_id (returned (some p), w) q ttl now h =
      get_meta-invalidate ttl st.cache w.db event_id now
  controlled_shows st event_id (returned none, w) q ttl now h = cc
  controlled_shows st event_id (thrown e, w) q ttl now h = cc
  controlled_shows st event_id (failed, w) q ttl now h = cc

  checked_patch :
      (st : ApiState R) (auth_user : Option AuthUser) (id : Option ℕ) (body : Option QueueControl)
      (event_id : ℕ) (control : QueueControl)
      → check_control auth_user id body ≡ returned (event_id, control)
      → patch_queue st auth_user id body
        ≡ controlled st event_id (control_queue R st.world event_id control)
  unfolding patch_queue
  checked_patch st auth_user id body event_id control passed = rw (patch_queue, passed) refl

  -- An administrator who changes the queue of an event and gets its status: the API that answered
  -- shows the event as the database now has it, however long its cache keeps an event.
  pub patch_queue_shows :
      (st : ApiState R) (auth_user : Option AuthUser) (id : Option ℕ) (body : Option QueueControl)
      (event_id : ℕ) (control : QueueControl) (q : QueueStatus) (ttl now : ℕ)
      → check_control auth_user id body ≡ returned (event_id, control)
      → (patch_queue st auth_user id body).0 ≡ returned q
      → let st1 = (patch_queue st auth_user id body).1 in
        (get_meta ttl st1.cache st1.world.db event_id now).0 ≡ load_event_meta st1.world.db event_id
  patch_queue_shows st auth_user id body event_id control q ttl now passed answered =
      let eq = checked_patch st auth_user id body event_id control passed in
      let ended = control_queue R st.world event_id control in
      rw (eq) (controlled_shows st event_id ended q ttl now (ap (λ r. r.0) (sym eq) ∙ answered))

  module _ (D : Double) where
    -- GET /admin/events/:id/metrics
    unfoldable pub get_metrics :
        World R → Option AuthUser → Option ℕ → ℕ → Outcome (AdminMetrics (Double.Num D))
    get_metrics w auth_user id now = do
      admin ← require_admin auth_user
      event_id ← parsed id
      found (get_admin_metrics D R w event_id now)
