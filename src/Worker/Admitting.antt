-- ===== src/Worker/Admitting.antt =====
-- jobs.ts, admissionTick: the leader moves the queue of each event on.
pub mod SoldOut
pub mod Paused
pub mod Examples
use antretix.Common.{
  ℕ, ◌+◌, Bool, true, false, not, ◌||◌, Option, none, some, List, [], ◌∷◌, ltb, ◌==◌, if◌then◌else◌,
  keep,
}
use antretix.Common.Int.{ℤ, pos, pos_part, leb_ℤ}
use antretix.Shared.Constants.{QueueStatus, open_, paused, sold_out}
use antretix.Shared.Keys
use antretix.Redis.{Redis, queue_status}
use antretix.Database.Schema.{EventStatus, TicketCategory, Database}
use antretix.Lua.Leader.{leader}
use antretix.Lua.Queue.{admit}
use antretix.Core.Context.{CoreSettings, World}
use antretix.Core.Events.{
  EventMeta, load_event_meta, scheduled_queue_status, next_queue_status, read_queue_status,
  same_queue_status, admit_per_sec_field, max_active_field,
}
use antretix.Worker.{Worker, leader_ttl_ms, sold_out_check_ms, set_event}
use antretix.Worker.Syncing.{update_event_status}

-- What the schedule that has just been read from the database asks for.
abbrev pub confirmed_status : QueueStatus → Option EventMeta → ℕ → QueueStatus
confirmed_status current none now = current
confirmed_status current (some fresh) now =
    next_queue_status (some current) (scheduled_queue_status fresh.event now)

abbrev cache_fresh : Worker → Option EventMeta → Worker
cache_fresh worker none = worker
cache_fresh worker (some fresh) = record worker { events = set_event fresh worker.events }

-- Number(text ?? fallback). A number below 0 admits nobody, as 0 does.
abbrev pub config_number : Option ℤ → ℕ → ℕ
config_number none fallback = fallback
config_number (some n) fallback = pos_part n

-- now - (last ?? 0) < SOLD_OUT_CHECK_MS
abbrev pub is_too_soon : ℕ → Option ℕ → Bool
is_too_soon now none = ltb now sold_out_check_ms
is_too_soon now (some last) = ltb now (last + sold_out_check_ms)

abbrev pub is_on_sale : Option QueueStatus → Bool
is_on_sale (some open_) = true
is_on_sale (some paused) = true
is_on_sale _ = false

abbrev pub quota_of : List TicketCategory → ℕ
quota_of [] = 0
quota_of (c ∷ cs) = c.quota + quota_of cs

abbrev pub sold_of : List TicketCategory → ℕ
sold_of [] = 0
sold_of (c ∷ cs) = c.sold + sold_of cs

abbrev pub categories_of : Database → ℕ → List TicketCategory
categories_of db event = keep (λ c. c.event_id == event) db.categories

module _ (R : Redis) where
  open R use {Store, slot, set_text}

  change_status : Store → ℕ → QueueStatus → QueueStatus → Store
  change_status s event current confirmed =
      if same_queue_status confirmed current
      then s
      else set_text s (Keys.status event) (queue_status confirmed)

  -- The schedule is looked at in the cache first, and in the database before the status changes.
  unfoldable pub follow_schedule : Worker → World R → EventMeta → ℕ → Worker × World R
  unfolding change_status
  follow_schedule worker w meta now = elim (read_queue_status R w.redis meta.event.id) [
    | none ↦ (worker, w)
    | some current ↦
        let next = next_queue_status (some current) (scheduled_queue_status meta.event now) in
        let fresh = load_event_meta w.db meta.event.id in
        if same_queue_status next current then (worker, w) else (
          cache_fresh worker fresh,
          record w {
            redis =
                change_status w.redis meta.event.id current (confirmed_status current fresh now);
          },
        )
  ]

  pub close_sale : World R → ℕ → World R
  close_sale w event = record w {
    redis = set_text w.redis (Keys.status event) (queue_status sold_out);
    db = update_event_status w.db event EventStatus.sold_out;
  }

  -- After the pause between two looks.
  look_sold_out : World R → EventMeta → World R
  unfolding close_sale
  look_sold_out w meta =
      let cs = categories_of w.db meta.event.id in
      if not (is_on_sale (read_queue_status R w.redis meta.event.id))
      then w
      else if ltb (sold_of cs) (quota_of cs)
      then w
      else close_sale w meta.event.id

  unfoldable pub check_sold_out : Worker → World R → EventMeta → ℕ → Worker × World R
  unfolding look_sold_out
  check_sold_out worker w meta now =
      if is_too_soon now (worker.last_sold_out_check meta.event.id) then (worker, w) else (
        record worker {
          last_sold_out_check =
              λ e. if e == meta.event.id then some now else worker.last_sold_out_check e;
        },
        look_sold_out w meta,
      )

  -- The rest of the tick, for the leader.
  unfoldable pub lead_event : CoreSettings → Worker → World R → EventMeta → ℕ → Worker × World R
  unfolding follow_schedule check_sold_out
  lead_event settings worker w meta now =
      let (worker1, w1) = follow_schedule worker w meta now in
      let config = slot w1.redis (Keys.config meta.event.id) in
      let (result, s2) =
        admit R w1.redis meta.event.id meta.stock_keys now
          (config_number (config.field admit_per_sec_field) meta.event.admit_per_sec)
          (config_number (config.field max_active_field) meta.event.max_active)
          settings.session_ttl_ms in
      let w2 = record w1 { redis = s2 } in
      if leb_ℤ result.stock_total (pos 0) then check_sold_out worker1 w2 meta now else (worker1, w2)

  unfoldable pub admit_event : CoreSettings → Worker → World R → EventMeta → ℕ → Worker × World R
  unfolding lead_event
  admit_event settings worker w meta now =
      let (is_leader, s1) =
        leader R w.redis (Keys.admission_lock meta.event.id) worker.instance_id leader_ttl_ms in
      let w1 = record w { redis = s1 } in
      if is_leader then lead_event settings worker w1 meta now else (worker, w1)

  admit_each : CoreSettings → Worker → World R → List EventMeta → ℕ → Worker × World R
  unfolding admit_event
  admit_each settings worker w [] now = (worker, w)
  admit_each settings worker w (meta ∷ metas) now =
      let (worker1, w1) = admit_event settings worker w meta now in
      admit_each settings worker1 w1 metas now

  unfoldable pub admission_tick : CoreSettings → Worker → World R → ℕ → Worker × World R
  unfolding admit_each
  admission_tick settings worker w now = admit_each settings worker w worker.events now
