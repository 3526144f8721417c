-- ===== src/Core/Admin/Saving.antt =====
-- admin.ts, upsertEvent: an event and its categories are saved in one transaction, then the stock in
-- Redis follows. Identifiers of new rows are draws.
pub mod Rows
pub mod Stock
use antretix.Common.{
  ℕ, suc, ◌+◌, ◌-◌, ◌*◌, Bool, true, false, ◌&&◌, Option, none, some, List, [], ◌∷◌, map, ltb, leb,
  ◌==◌, if◌then◌else◌, find,
}
use antretix.Common.Int.{ℤ, pos, ◌-ℤ◌, eqb_ℤ}
use antretix.Shared.Errors.{Outcome, returned, failed}
use antretix.Shared.Keys
use antretix.Redis.{Redis}
use antretix.Database.Schema.{Event, EventStatus, TicketCategory, Database}
use antretix.Database.Functions.{Sql, done, exception}
use antretix.Core.Context.{World}
use antretix.Core.Events.{load_event_meta, sync_event_to_redis}

pub record CategoryInput : Type 0 where
  pub id : Option ℕ
  pub name : ℕ
  pub price : ℕ
  pub quota : ℕ

-- The schema lets only the statuses draft and scheduled through.
pub record EventInput : Type 0 where
  pub id : Option ℕ
  pub name : ℕ
  pub venue : ℕ
  pub description : ℕ
  pub poster_url : ℕ
  pub starts_at : ℕ
  pub sale_opens_at : ℕ
  pub pre_queue_at : Option ℕ
  pub status : EventStatus
  pub admit_per_sec : ℕ
  pub max_active : ℕ
  pub max_per_user : ℕ
  pub categories : List CategoryInput

-- The identifiers that the database draws: for the event, and for the category at an index.
pub record Ids : Type 0 where
  pub event_id : ℕ
  pub category_id : ℕ → ℕ

pub record StockDelta : Type 0 where
  pub category_id : ℕ
  pub delta : ℤ

-- input.preQueueAt ?? half an hour before the sale
abbrev pre_queue_of : Option ℕ → ℕ → ℕ
pre_queue_of none opens = opens - 1800000
pre_queue_of (some t) opens = t

abbrev pub event_row : EventInput → ℕ → Event
event_row input event_id = record {
  id = event_id;
  name = input.name;
  venue = input.venue;
  description = input.description;
  poster_url = input.poster_url;
  starts_at = input.starts_at;
  sale_opens_at = input.sale_opens_at;
  pre_queue_at = pre_queue_of input.pre_queue_at input.sale_opens_at;
  status = input.status;
  admit_per_sec = input.admit_per_sec;
  max_active = input.max_active;
  max_per_user = input.max_per_user;
}

abbrev replace_event : Event → Event → Event
replace_event row e = if e.id == row.id then row else e

-- INSERT of a new event, UPDATE of a given one: its identifier.
unfoldable pub save_event : Database → EventInput → Ids → Sql ℕ
save_event db input ids = elim input.id [
  | none ↦ done ids.event_id (record db { events = event_row input ids.event_id ∷ db.events })
  | some given ↦ elim (find (λ e. e.id == given) db.events) [
    | none ↦ exception
    | some e ↦
        done given (record db { events = map (replace_event (event_row input given)) db.events })
  ]
]

abbrev pub new_category : CategoryInput → ℕ → ℕ → ℕ → TicketCategory
new_category input event_id category_id index = record {
  id = category_id;
  event_id = event_id;
  name = input.name;
  price = input.price;
  quota = input.quota;
  sold = 0;
  reserved = 0;
  sort_order = index;
}

abbrev pub set_category : CategoryInput → ℕ → ℕ → TicketCategory → TicketCategory
set_category input category_id index c =
    if c.id == category_id
    then record c {
      name = input.name;
      price = input.price;
      quota = input.quota;
      sort_order = index;
    }
    else c

abbrev pub is_category : ℕ → ℕ → TicketCategory → Bool
is_category event_id category_id c = (c.id == category_id) && (c.event_id == event_id)

-- if (quotaDelta !== 0) stockDeltas.push(…)
abbrev pub add_delta : ℕ → ℤ → List StockDelta → List StockDelta
add_delta category_id delta deltas =
    if eqb_ℤ delta (pos 0)
    then deltas
    else record { category_id = category_id; delta = delta } ∷ deltas

abbrev and_delta : ℕ → ℤ → Sql (List StockDelta) → Sql (List StockDelta)
and_delta category_id delta exception = exception
and_delta category_id delta (done deltas db) = done (add_delta category_id delta deltas) db

-- The loop over the categories. The CHECK on the quota is what an update may not break.
unfoldable pub save_categories : Database → ℕ → Ids → ℕ → List CategoryInput → Sql (List StockDelta)
save_categories db event_id ids index [] = done [] db
save_categories db event_id ids index (input ∷ inputs) = elim input.id [
  | none ↦
      save_categories
        (record db {
          categories = new_category input event_id (ids.category_id index) index ∷ db.categories;
        })
        event_id ids (suc index) inputs
  | some given ↦ elim (find (is_category event_id given) db.categories) [
    | none ↦ exception
    | some current ↦
        let rest =
          save_categories
            (record db { categories = map (set_category input given index) db.categories }) event_id
            ids (suc index) inputs in
        if leb (current.sold + current.reserved) input.quota
        then and_delta given (pos input.quota -ℤ pos current.quota) rest
        else exception
  ]
]

module _ (R : Redis) where
  open R use {Store, incrby}

  -- The loop over the deltas.
  unfoldable pub pass_deltas : Store → ℕ → List StockDelta → Store
  pass_deltas s event_id [] = s
  pass_deltas s event_id (d ∷ ds) =
      pass_deltas (incrby s (Keys.stock event_id d.category_id) d.delta) event_id ds

  sync_saved : World R → ℕ → ℕ → World R
  sync_saved w event_id now = elim (load_event_meta w.db event_id) [
    | none ↦ w
    | some meta ↦ record w { redis = (sync_event_to_redis R w.redis meta now).1 }
  ]

  -- Once the event is saved.
  upsert_categories : World R → World R → ℕ → EventInput → Ids → ℕ → Outcome ℕ × World R
  unfolding sync_saved
  upsert_categories before w event_id input ids now =
      elim (save_categories w.db event_id ids 0 input.categories) [
        | exception ↦ (failed, before)
        | done deltas db ↦ (
          returned event_id,
          sync_saved (record w { redis = pass_deltas w.redis event_id deltas; db = db }) event_id
              now,
        )
      ]

  unfoldable pub upsert_event : World R → EventInput → Ids → ℕ → Outcome ℕ × World R
  unfolding upsert_categories
  upsert_event w input ids now = elim (save_event w.db input ids) [
    | exception ↦ (failed, w)
    | done event_id db ↦ upsert_categories w (record w { db = db }) event_id input ids now
  ]
