-- ===== src/Core/Admin.antt =====
-- packages/core/src/admin.ts: what an administrator sees and changes of the queue. Between the
-- statements no other request is modelled.
pub mod Saving
pub mod Pausing
pub mod Examples
use antretix.Common.{
  ℕ, ◌+◌, ◌-◌, Bool, true, false, not, ◌&&◌, ◌||◌, Option, none, some, List, [], ◌∷◌, map, ltb, leb,
  ◌==◌, if◌then◌else◌, keep, length, find,
}
use antretix.Common.Int.{ℤ, pos}
use antretix.Shared.Constants.{QueueStatus, scheduled, open_, paused}
use antretix.Shared.Double.{Double}
use antretix.Shared.Errors.{Outcome, returned, failed}
use antretix.Shared.Keys
use antretix.Redis.{Redis, Entry, queue_status, or_zero, since}
use antretix.Database.Schema.{Event, TicketCategory, Database}
use antretix.Lua.Status.{count_admits}
use antretix.Core.Context.{World}
use antretix.Core.Events.{EventMeta, load_event_meta, read_queue_status, write_event_config}

pub record CategoryMetrics : Type 0 where
  pub id : ℕ
  pub name : ℕ
  pub quota : ℕ
  pub sold : ℕ
  pub reserved : ℕ
  pub redis_stock : ℤ

pub record AdminMetrics (Num : Type 0) : Type 0 where
  pub event_id : ℕ
  pub queue_status : QueueStatus
  pub queue_length : ℕ
  pub active_users : ℕ
  pub admit_per_sec : ℕ
  pub max_active : ℕ
  pub observed_admit_per_sec : Num
  pub orders_per_minute : ℕ
  pub paid_per_minute : ℕ
  pub total_sold : ℕ
  pub total_reserved : ℕ
  pub categories : List CategoryMetrics
  pub timestamp : ℕ

abbrev pub total_sold_of : List CategoryMetrics → ℕ
total_sold_of [] = 0
total_sold_of (c ∷ cs) = c.sold + total_sold_of cs

abbrev pub total_reserved_of : List CategoryMetrics → ℕ
total_reserved_of [] = 0
total_reserved_of (c ∷ cs) = c.reserved + total_reserved_of cs

-- queueStatus ?? "SCHEDULED"
abbrev or_scheduled : Option QueueStatus → QueueStatus
or_scheduled none = scheduled
or_scheduled (some q) = q

pub data QueueAction : Type 0 where
  pause resume : QueueAction

pub record QueueControl : Type 0 where
  pub admit_per_sec : Option ℕ
  pub max_active : Option ℕ
  pub action : Option QueueAction

abbrev pub or_else : Option ℕ → ℕ → ℕ
or_else none old = old
or_else (some new) old = new

abbrev is_given : Option ℕ → Bool
is_given none = false
is_given (some n) = true

abbrev set_rates : QueueControl → ℕ → Event → Event
set_rates control event_id e =
    if e.id == event_id
    then record e {
      admit_per_sec = or_else control.admit_per_sec e.admit_per_sec;
      max_active = or_else control.max_active e.max_active;
    }
    else e

abbrev is_some_event : Option Event → Bool
is_some_event none = false
is_some_event (some e) = true

-- prisma.event.update, which raises when there is no such row; without data it is not called.
unfoldable pub update_rates : Database → ℕ → QueueControl → Option Database
update_rates db event_id control =
    if not (is_given control.admit_per_sec || is_given control.max_active)
    then some db
    else if is_some_event (find (λ e. e.id == event_id) db.events)
    then some (record db { events = map (set_rates control event_id) db.events })
    else none

-- What the action makes of the status, if it is one that it changes.
abbrev pub acted_on : Option QueueAction → Option QueueStatus → Option QueueStatus
acted_on (some QueueAction.pause) (some open_) = some paused
acted_on (some QueueAction.resume) (some paused) = some open_
acted_on action current = none

module _ (D : Double) (R : Redis) where
  open R use {Store, slot}

  count_in_window : Store → Keys.Key → ℕ → ℕ
  count_in_window s key from = length (since from (slot s key).zset)

  category_metrics : Store → ℕ → TicketCategory → CategoryMetrics
  category_metrics s event_id c = record {
    id = c.id;
    name = c.name;
    quota = c.quota;
    sold = c.sold;
    reserved = c.reserved;
    redis_stock = or_zero (slot s (Keys.stock event_id c.id)).counter;
  }

  metrics_of : Store → EventMeta → ℕ → AdminMetrics (Double.Num D)
  unfolding count_in_window category_metrics
  metrics_of s meta now =
      let event = meta.event.id in
      let from = now - 60000 in
      let admits = count_admits (since from (slot s (Keys.admit_stats event)).zset) in
      let categories = map (category_metrics s event) meta.categories in
      record {
        event_id = event;
        queue_status = or_scheduled (read_queue_status R s event);
        queue_length = length (slot s (Keys.queue event)).zset;
        active_users = count_in_window s (Keys.active event) now;
        admit_per_sec = meta.event.admit_per_sec;
        max_active = meta.event.max_active;
        observed_admit_per_sec = Double.quot D (Double.of_ℕ D admits) (Double.of_ℕ D 60);
        orders_per_minute = count_in_window s (Keys.order_stats event) from;
        paid_per_minute = count_in_window s (Keys.paid_stats event) from;
        total_sold = total_sold_of categories;
        total_reserved = total_reserved_of categories;
        categories = categories;
        timestamp = now;
      }

  unfoldable pub get_admin_metrics : World R → ℕ → ℕ → Option (AdminMetrics (Double.Num D))
  unfolding metrics_of
  get_admin_metrics w event_id now = elim (load_event_meta w.db event_id) [
    | none ↦ none
    | some meta ↦ some (metrics_of w.redis meta now)
  ]

module _ (R : Redis) where
  open R use {Store, set_text}

  act : Store → ℕ → Option QueueStatus → Option QueueStatus → Option QueueStatus × Store
  act s event_id current none = (current, s)
  act s event_id current (some q) = (some q, set_text s (Keys.status event_id) (queue_status q))

  -- Once the row is written.
  control_in_redis : World R → ℕ → Option QueueAction → Outcome (Option QueueStatus) × World R
  unfolding act
  control_in_redis w event_id action = elim (load_event_meta w.db event_id) [
    | none ↦ (returned none, w)
    | some meta ↦
        let s1 = write_event_config R w.redis meta in
        let current = read_queue_status R s1 event_id in
        let (reply, s2) = act s1 event_id current (acted_on action current) in
        (returned reply, record w { redis = s2 })
  ]

  unfoldable pub control_queue : World R → ℕ → QueueControl → Outcome (Option QueueStatus) × World R
  unfolding control_in_redis
  control_queue w event_id control = elim (update_rates w.db event_id control) [
    | none ↦ (failed, w)
    | some db ↦ control_in_redis (record w { db = db }) event_id control.action
  ]
