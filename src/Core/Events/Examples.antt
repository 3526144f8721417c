-- ===== src/Core/Events/Examples.antt =====
-- The schedule of a concert and its synchronisation, and their theorems at concrete inputs.
use antretix.Common.{ℕ, ◌≡◌, ◌≢◌, ◌≤◌, ◌<◌, refl, some, [], ◌∷◌, if◌then◌else◌}
use antretix.Common.Int.{pos}
use antretix.Shared.Constants.{open_, paused, sold_out}
use antretix.Shared.Keys
use antretix.Shared.Keys.{key_eq}
use antretix.Redis.{queue_status, vacant}
use antretix.Redis.Memory.{Table, memory}
use antretix.Database.Schema.{Event, EventStatus, TicketCategory}
use antretix.Core.Events.{
  EventMeta, next_queue_status, scheduled_queue_status, read_queue_status, sync_event_to_redis,
}
use antretix.Core.Events.Schedule.{open_only_on_sale}
use antretix.Core.Events.Sync.{Stocked, sync_event_to_redis_result}

abbrev pub concert : Event
concert = record {
  id = 1;
  name = 0;
  venue = 0;
  description = 0;
  poster_url = 0;
  starts_at = 9000;
  sale_opens_at = 2000;
  pre_queue_at = 1000;
  status = EventStatus.scheduled;
  admit_per_sec = 50;
  max_active = 500;
  max_per_user = 4;
}

abbrev pub category : ℕ → TicketCategory
category id = record {
  id = id;
  event_id = 1;
  name = 0;
  price = 100;
  quota = 10;
  sold = 2;
  reserved = 1;
  sort_order = id;
}

abbrev pub meta : EventMeta
meta = record {
  event = concert;
  categories = category 7 ∷ category 8 ∷ [];
  stock_keys = Keys.stock 1 7 ∷ Keys.stock 1 8 ∷ [];
}

-- Category 7 has a stock already; the queue is paused.
abbrev before : Table
before k =
    if key_eq (Keys.stock 1 7) k
    then record vacant { counter = some (pos 4) }
    else if key_eq (Keys.status 1) k
    then record vacant { text = some (queue_status paused) }
    else vacant

open_only_on_sale_example :
    (1000 ≤ 2500)
    × (2000 ≤ 2500)
    × (2500 < 9000)
    × (concert.status ≢ EventStatus.draft)
    × (concert.status ≢ EventStatus.ended)
    × (some open_ ≢ some paused)
    × (some open_ ≢ some sold_out)
unfolding next_queue_status scheduled_queue_status
open_only_on_sale_example = open_only_on_sale concert (some open_) 2500 refl

sync_event_to_redis_result_example :
    let (next, s') = sync_event_to_redis memory before meta 2500 in
    (next
      ≡ next_queue_status (read_queue_status memory before 1) (scheduled_queue_status concert 2500))
    × (read_queue_status memory s' 1 ≡ some next)
    × Stocked memory before 1 s' meta.categories
    × ((sync_event_to_redis memory s' meta 2500).0 ≡ next)
sync_event_to_redis_result_example =
    sync_event_to_redis_result memory before meta 2500 ((refl, tt), (tt, tt))
