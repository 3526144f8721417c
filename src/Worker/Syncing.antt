-- ===== src/Worker/Syncing.antt =====
-- jobs.ts, syncEvents: the events on sale, their state in Redis and their status in PostgreSQL. The
-- rows come in the order of the table.
use antretix.Common.{
  ℕ, Bool, true, false, none, some, List, [], ◌∷◌, ◌==◌, ◌||◌, if◌then◌else◌, keep, map,
}
use antretix.Shared.Constants.{QueueStatus}
use antretix.Redis.{Redis}
use antretix.Database.Schema.{Event, EventStatus, Database}
use antretix.Core.Context.{World}
use antretix.Core.Events.{EventMeta, load_event_meta, sync_event_to_redis, event_status_for}
use antretix.Worker.{Worker, set_event}

-- where: { status: { in: ["SCHEDULED", "ON_SALE", "SOLD_OUT"] } }
abbrev pub is_synced_status : EventStatus → Bool
is_synced_status EventStatus.scheduled = true
is_synced_status EventStatus.on_sale = true
is_synced_status EventStatus.sold_out = true
is_synced_status _ = false

abbrev same_event_status : EventStatus → EventStatus → Bool
same_event_status EventStatus.draft EventStatus.draft = true
same_event_status EventStatus.scheduled EventStatus.scheduled = true
same_event_status EventStatus.on_sale EventStatus.on_sale = true
same_event_status EventStatus.sold_out EventStatus.sold_out = true
same_event_status EventStatus.ended EventStatus.ended = true
same_event_status _ _ = false

abbrev set_status_of : ℕ → EventStatus → Event → Event
set_status_of id status e = if e.id == id then record e { status = status } else e

-- prisma.event.update({ where: { id }, data: { status } })
unfoldable pub update_event_status : Database → ℕ → EventStatus → Database
update_event_status db id status = record db { events = map (set_status_of id status) db.events }

unfoldable pub set_status_if_changed : Database → EventMeta → QueueStatus → Database
unfolding update_event_status
set_status_if_changed db meta queue_status =
    let status = event_status_for queue_status meta.event.status in
    if same_event_status status meta.event.status
    then db
    else update_event_status db meta.event.id status

abbrev pub is_seen : List ℕ → ℕ → Bool
is_seen [] id = false
is_seen (n ∷ ns) id = (n == id) || is_seen ns id

module _ (R : Redis) where
  -- One round of the loop, once the event is loaded.
  unfoldable pub sync_event : Worker → World R → EventMeta → ℕ → Worker × World R
  unfolding set_status_if_changed
  sync_event worker w meta now =
      let (queue_status, s1) = sync_event_to_redis R w.redis meta now in
      (
        record worker { events = set_event meta worker.events },
        record w { redis = s1; db = set_status_if_changed w.db meta queue_status },
      )

  -- The loop over the rows, with the identifiers that it has seen.
  sync_each : Worker → World R → List ℕ → List Event → ℕ → List ℕ × Worker × World R
  unfolding sync_event
  sync_each worker w seen [] now = (seen, worker, w)
  sync_each worker w seen (row ∷ rows) now = elim (load_event_meta w.db row.id) [
    | none ↦ sync_each worker w seen rows now
    | some meta ↦
        let (worker1, w1) = sync_event worker w meta now in
        sync_each worker1 w1 (meta.event.id ∷ seen) rows now
  ]

  unfoldable pub sync_events : Worker → World R → ℕ → Worker × World R
  unfolding sync_each
  sync_events worker w now =
      let (seen, worker1, w1) =
        sync_each worker w [] (keep (λ e. is_synced_status e.status) w.db.events) now in
      (record worker1 { events = keep (λ m. is_seen seen m.event.id) worker1.events }, w1)
