-- ===== src/Core/Events.antt =====
-- packages/core/src/events.ts: the schedule of an event and what of it is kept in Redis.
-- A time is in milliseconds.
pub mod Schedule
pub mod Loading
pub mod Sync
pub mod Cache
pub mod Examples
use antretix.Common.{
  ℕ, ◌-◌, Bool, true, false, not, ◌||◌, Option, none, some, List, [], ◌∷◌, map, ltb, leb, ◌==◌,
  if◌then◌else◌, find, keep,
}
use antretix.Common.Int.{pos}
use antretix.Shared.Constants.{QueueStatus, scheduled, prequeue, open_, paused, sold_out, closed}
use antretix.Shared.Keys
use antretix.Shared.Keys.{Key}
use antretix.Redis.{Redis, Slot, Text, queue_status, word}
use antretix.Database.Schema.{Event, EventStatus, TicketCategory, Database}

-- EventMeta: the event, its categories in the order of sale, and the keys of their stock.
pub record EventMeta : Type 0 where
  pub event : Event
  pub open event use *
  pub categories : List TicketCategory
  pub stock_keys : List Key

-- ORDER BY "sortOrder" ASC
insert_category : TicketCategory → List TicketCategory → List TicketCategory
insert_category c [] = c ∷ []
insert_category c (d ∷ ds) =
    if leb c.sort_order d.sort_order then c ∷ d ∷ ds else d ∷ insert_category c ds

unfoldable pub in_sale_order : List TicketCategory → List TicketCategory
unfolding insert_category
in_sale_order [] = []
in_sale_order (c ∷ cs) = insert_category c (in_sale_order cs)

meta_of : Event → List TicketCategory → EventMeta
meta_of event cs = record {
  event = event;
  categories = cs;
  stock_keys = map (λ (c : TicketCategory). Keys.stock event.id c.id) cs;
}

unfoldable pub load_event_meta : Database → ℕ → Option EventMeta
unfolding in_sale_order meta_of
load_event_meta db id = elim (find (λ e. e.id == id) db.events) [
  | none ↦ none
  | some e ↦ some (meta_of e (in_sale_order (keep (λ c. c.event_id == id) db.categories)))
]

abbrev is_off_sale : EventStatus → Bool
is_off_sale EventStatus.draft = true
is_off_sale EventStatus.ended = true
is_off_sale _ = false

-- The status that the schedule alone asks for.
unfoldable pub scheduled_queue_status : Event → ℕ → QueueStatus
scheduled_queue_status e now =
    if is_off_sale e.status || leb e.starts_at now
    then closed
    else if ltb now e.pre_queue_at
    then scheduled
    else if ltb now e.sale_opens_at
    then prequeue
    else open_

-- The schedule joined with a pause and with being sold out.
unfoldable pub next_queue_status : Option QueueStatus → QueueStatus → QueueStatus
next_queue_status current closed = closed
next_queue_status (some sold_out) scheduled = sold_out
next_queue_status (some sold_out) prequeue = sold_out
next_queue_status (some sold_out) open_ = sold_out
next_queue_status (some sold_out) paused = sold_out
next_queue_status (some sold_out) sold_out = sold_out
next_queue_status (some paused) open_ = paused
next_queue_status current s = s

unfoldable pub event_status_for : QueueStatus → EventStatus → EventStatus
event_status_for queue EventStatus.draft = EventStatus.draft
event_status_for open_ current = EventStatus.on_sale
event_status_for paused current = EventStatus.on_sale
event_status_for sold_out current = EventStatus.sold_out
event_status_for closed current = EventStatus.ended
event_status_for scheduled current = EventStatus.scheduled
event_status_for prequeue current = EventStatus.scheduled

abbrev pub same_queue_status : QueueStatus → QueueStatus → Bool
same_queue_status scheduled scheduled = true
same_queue_status prequeue prequeue = true
same_queue_status open_ open_ = true
same_queue_status paused paused = true
same_queue_status sold_out sold_out = true
same_queue_status closed closed = true
same_queue_status _ _ = false

-- isQueueStatus
abbrev pub as_queue_status : Option Text → Option QueueStatus
as_queue_status none = none
as_queue_status (some (queue_status q)) = some q
as_queue_status (some (word w)) = none

abbrev pub is_current : Option QueueStatus → QueueStatus → Bool
is_current none q = false
is_current (some p) q = same_queue_status p q

-- The fields of config:{event}.
abbrev pub admit_per_sec_field : ℕ
admit_per_sec_field = 0

abbrev pub max_active_field : ℕ
max_active_field = 1

abbrev pub max_per_user_field : ℕ
max_per_user_field = 2

module _ (R : Redis) where
  open R use {Store, slot, set_number_nx, set_text, sadd, hset}

  unfoldable pub read_queue_status : Store → ℕ → Option QueueStatus
  read_queue_status s event = as_queue_status (slot s (Keys.status event)).text

  unfoldable pub write_event_config : Store → EventMeta → Store
  write_event_config s meta =
      let key = Keys.config meta.event.id in
      hset
        (hset (hset s key admit_per_sec_field (pos meta.event.admit_per_sec)) key max_active_field
          (pos meta.event.max_active))
        key max_per_user_field (pos meta.event.max_per_user)

  -- SET … NX for each category: `Math.max(0, available)` is the truncated difference.
  unfoldable pub init_stock : Store → ℕ → List TicketCategory → Store
  init_stock s event [] = s
  init_stock s event (c ∷ cs) =
      init_stock (set_number_nx s (Keys.stock event c.id) (pos (c.quota - c.sold - c.reserved)))
        event cs

  add_categories : Store → ℕ → List TicketCategory → Store
  add_categories s event [] = s
  add_categories s event (c ∷ cs) = add_categories (sadd s (Keys.categories event) c.id) event cs

  set_status_if_new : Store → ℕ → Option QueueStatus → QueueStatus → Store
  set_status_if_new s event current next =
      if is_current current next then s else set_text s (Keys.status event) (queue_status next)

  unfoldable pub sync_event_to_redis : Store → EventMeta → ℕ → QueueStatus × Store
  unfolding read_queue_status write_event_config init_stock add_categories set_status_if_new
  sync_event_to_redis s meta now =
      let id = meta.event.id in
      let s1 = add_categories (init_stock s id meta.categories) id meta.categories in
      let s2 = write_event_config s1 meta in
      let current = read_queue_status s2 id in
      let next = next_queue_status current (scheduled_queue_status meta.event now) in
      (next, set_status_if_new s2 id current next)
