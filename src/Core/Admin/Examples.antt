-- ===== src/Core/Admin/Examples.antt =====
-- The administration on stores in memory, and its theorem at a concrete input.
use antretix.Common.{ℕ, ◌+◌, ◌≡◌, refl, some, [], ◌∷◌, arith}
use antretix.Common.Int.{pos}
use antretix.Shared.Constants.{QueueStatus}
use antretix.Redis.Memory.{memory}
use antretix.Database.Schema.{EventStatus}
use antretix.Database.Consistency.Histories.{on_offer}
use antretix.Lua.Queue.Examples.{room}
use antretix.Core.Context.{World}
use antretix.Core.Events.Examples.{concert, category}
use antretix.Core.Admin.Saving.{
  CategoryInput, EventInput, Ids, save_event, save_categories, upsert_event,
}
use antretix.Core.Admin.Saving.Rows.{IsFresh}
use antretix.Core.Admin.Saving.Stock.{KeepsDrift, upsert_event_drift}

-- Category 7 of the concert has a quota of 10, and 3 tickets in Redis.
abbrev concert_world : World memory
concert_world = record {
  redis = room QueueStatus.open_;
  db = record (on_offer (category 7 ∷ category 8 ∷ [])) { events = concert ∷ [] };
}

abbrev category_input : ℕ → CategoryInput
category_input quota = record { id = some 7; name = 0; price = 100; quota = quota }

abbrev input : ℕ → EventInput
input quota = record {
  id = some 1;
  name = 0;
  venue = 0;
  description = 0;
  poster_url = 0;
  starts_at = 9000;
  sale_opens_at = 2000;
  pre_queue_at = some 1000;
  status = EventStatus.scheduled;
  admit_per_sec = 50;
  max_active = 500;
  max_per_user = 4;
  categories = category_input quota ∷ [];
}

abbrev ids : Ids
ids = record { event_id = 90; category_id = λ i. 100 + i }

-- A quota of 2 is below the three tickets that are sold or reserved.
upsert_event-short : (upsert_event memory concert_world (input 2) ids 3000).1 ≡ concert_world
unfolding upsert_event save_event save_categories
upsert_event-short = refl

ids-IsFresh : IsFresh ids 7
ids-IsFresh i = ground arith

upsert_event_drift_example :
    KeepsDrift memory concert_world 1 7
      (category 7)
      (pos 3)
      (upsert_event memory concert_world (input 15) ids 3000)
upsert_event_drift_example =
    upsert_event_drift memory concert_world (input 15) ids 3000 1 7 (category 7) (pos 3) refl refl
      ids-IsFresh refl
