-- ===== src/Api/Routes/Events.antt =====
-- apps/api/src/routes/events.ts: what anybody sees of an event, and the stock that a user with a
-- queue token sees. The list of events is left out.
use antretix.Common.{ℕ, ◌-◌, Option, none, some, List, [], ◌∷◌}
use antretix.Common.Int.{ℤ, pos, negsuc}
use antretix.Shared.Constants.{QueueStatus}
use antretix.Shared.Errors.{Outcome, returned, parsed, ◌>>=◌}
use antretix.Shared.Keys
use antretix.Redis.{Redis, or_zero}
use antretix.Database.Schema.{EventStatus, TicketCategory}
use antretix.Core.Events.{EventMeta, read_queue_status, scheduled_queue_status}
use antretix.Api.Auth.{AuthUser, Jwt, TokenHeader, require_user, require_queue_token}
use antretix.Api.Routes.{require_event}

pub record CategoryView : Type 0 where
  pub id : ℕ
  pub name : ℕ
  pub price : ℕ
  pub quota : ℕ
  pub remaining : ℕ

pub record EventView : Type 0 where
  pub id : ℕ
  pub name : ℕ
  pub venue : ℕ
  pub description : ℕ
  pub poster_url : ℕ
  pub starts_at : ℕ
  pub sale_opens_at : ℕ
  pub pre_queue_at : ℕ
  pub status : EventStatus
  pub queue_status : QueueStatus
  pub max_per_user : ℕ
  pub server_time : ℕ
  pub categories : List CategoryView

pub record StockView : Type 0 where
  pub categories : List CategoryView
  pub session_expires_at : ℤ
  pub max_per_user : ℕ
  pub already_held : ℤ

-- Math.max(0, remaining), where the database stands in for a key that Redis does not have.
abbrev remaining_of : TicketCategory → Option ℤ → ℕ
remaining_of c none = c.quota - c.sold - c.reserved
remaining_of c (some (pos n)) = n
remaining_of c (some (negsuc n)) = 0

abbrev category_view : TicketCategory → Option ℤ → CategoryView
category_view c raw = record {
  id = c.id;
  name = c.name;
  price = c.price;
  quota = c.quota;
  remaining = remaining_of c raw;
}

-- scheduledQueueStatus where Redis has no status
abbrev or_schedule : Option QueueStatus → QueueStatus → QueueStatus
or_schedule none by_schedule = by_schedule
or_schedule (some q) by_schedule = q

module _ (R : Redis) where
  open R use {Store, slot}

  -- The categories, each with the value of the stock key at its index.
  unfoldable pub category_views : Store → List TicketCategory → List Keys.Key → List CategoryView
  category_views s [] ks = []
  category_views s (c ∷ cs) [] = category_view c none ∷ category_views s cs []
  category_views s (c ∷ cs) (k ∷ ks) = category_view c (slot s k).counter ∷ category_views s cs ks

  view_of : Store → ℕ → EventMeta → ℕ → EventView
  view_of s event_id meta now = record {
    id = meta.event.id;
    name = meta.event.name;
    venue = meta.event.venue;
    description = meta.event.description;
    poster_url = meta.event.poster_url;
    starts_at = meta.event.starts_at;
    sale_opens_at = meta.event.sale_opens_at;
    pre_queue_at = meta.event.pre_queue_at;
    status = meta.event.status;
    queue_status =
        or_schedule (read_queue_status R s event_id) (scheduled_queue_status meta.event now);
    max_per_user = meta.event.max_per_user;
    server_time = now;
    categories = category_views s meta.categories meta.stock_keys;
  }

  -- GET /events/:id
  unfoldable pub get_event : Store → (ℕ → Option EventMeta) → Option ℕ → ℕ → Outcome EventView
  unfolding view_of
  get_event s events id now = do
    event_id ← parsed id
    meta ← require_event events event_id
    returned (view_of s event_id meta now)

  module _ (J : Jwt) where
    -- GET /events/:id/stock
    unfoldable pub get_stock :
        ℕ
        → Store
        → (ℕ → Option EventMeta)
        → Option ℕ
        → Option AuthUser
        → TokenHeader (Jwt.Token J)
        → ℕ
        → Outcome StockView
    get_stock key s events id auth_user header now = do
      event_id ← parsed id
      user ← require_user auth_user
      meta ← require_event events event_id
      claims ← require_queue_token J key now header event_id user.sub
      returned (record {
        categories = category_views s meta.categories meta.stock_keys;
        session_expires_at = claims.expires_at_ms;
        max_per_user = meta.event.max_per_user;
        already_held = or_zero (slot s (Keys.bought event_id user.sub)).counter;
      })
