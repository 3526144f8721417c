-- ===== src/Worker/Admitting/Examples.antt =====
-- Ticks of a worker on stores in memory, and the theorems on them at concrete inputs.
use antretix.Common.{ℕ, ◌≡◌, refl, some, none, [], ◌∷◌, All, arith, if◌then◌else◌}
use antretix.Common.Int.{◌+ℤ◌, ◌-ℤ◌}
use antretix.Shared.Constants.{QueueStatus, open_, paused, sold_out}
use antretix.Shared.Errors.{returned}
use antretix.Shared.Keys
use antretix.Shared.Keys.{key_eq}
use antretix.Redis.{queue_status, vacant}
use antretix.Redis.Memory.{Table, memory}
use antretix.Database.Schema.{Database}
use antretix.Database.Functions.{reserve_order, held_by}
use antretix.Database.Settlement.{pay_order}
use antretix.Database.Consistency.{IsConsistent}
use antretix.Database.Consistency.Histories.{Statement, run, on_offer}
use antretix.Database.Examples.{festival, request}
use antretix.Lua.Leader.{leader}
use antretix.Lua.Queue.{admit}
use antretix.Lua.Queue.Frame.{status_of}
use antretix.Lua.Queue.Joining.{queue_of}
use antretix.Lua.Queue.Examples.{room}
use antretix.Core.Context.{CoreSettings, World}
use antretix.Core.Events.{
  scheduled_queue_status, load_event_meta, read_queue_status, next_queue_status, write_event_config,
}
use antretix.Core.Events.Examples.{concert, meta, category}
use antretix.Core.Admin.{QueueControl, QueueAction, control_queue, update_rates}
use antretix.Worker.{Worker}
use antretix.Worker.Admitting.{
  categories_of, admit_event, follow_schedule, lead_event, check_sold_out,
}
use antretix.Worker.Admitting.SoldOut.{IsSoldOut, admit_event_sold_out}
use antretix.Worker.Admitting.Paused.{run_ticks, pause_holds}

abbrev pub settings : CoreSettings
settings = record { hold_ttl_ms = 600000; session_ttl_ms = 600000; heartbeat_timeout_ms = 45000 }

abbrev worker : ℕ → Worker
worker instance_id = record {
  instance_id = instance_id;
  events = meta ∷ [];
  last_sold_out_check = λ e. none;
}

-- The one ticket of category 7 is sold.
abbrev sold : Database
sold =
    run (on_offer (record festival { quota = 1 } ∷ []))
      (Statement.reserve (request 1 11 1) ∷ Statement.pay 1 900 (21 ∷ []) 50 ∷ [])

sold-IsConsistent : IsConsistent sold
unfolding reserve_order held_by pay_order
sold-IsConsistent = ground arith

abbrev on_sale : Table
on_sale k =
    if key_eq (Keys.status 1) k then record vacant { text = some (queue_status open_) } else vacant

abbrev ended : World memory
ended = record { redis = on_sale; db = sold }

ended-sold_out :
    status_of memory (admit_event memory settings (worker 5) ended meta 5000).1.redis 1
    ≡ some (queue_status sold_out)
unfolding admit_event lead_event follow_schedule check_sold_out leader admit read_queue_status
    scheduled_queue_status next_queue_status reserve_order held_by pay_order ◌-ℤ◌ ◌+ℤ◌
ended-sold_out = refl

admit_event_sold_out_example : All IsSoldOut (categories_of sold 1)
admit_event_sold_out_example =
    admit_event_sold_out memory settings (worker 5) ended meta 5000 open_ sold-IsConsistent refl
      (λ e. cc) ended-sold_out

-- Accounts 11 and 12 wait for the concert, which is in the tables.
abbrev pub concert_world : World memory
concert_world = record {
  redis = room QueueStatus.open_;
  db = record (on_offer (category 7 ∷ category 8 ∷ [])) { events = concert ∷ [] };
}

abbrev pause : QueueControl
pause = record { admit_per_sec = some 20; max_active = none; action = some QueueAction.pause }

abbrev paused_world : World memory
paused_world = (control_queue memory concert_world 1 pause).1

pause-reply : (control_queue memory concert_world 1 pause).0 ≡ returned (some paused)
unfolding control_queue update_rates load_event_meta read_queue_status write_event_config
pause-reply = refl

pause_holds_example :
    queue_of memory
      (run_ticks memory settings paused_world meta ((worker 5, 3000) ∷ (worker 6, 4000) ∷ [])).redis
      1
    ≡ queue_of memory (room QueueStatus.open_) 1
unfolding scheduled_queue_status
pause_holds_example =
    pause_holds memory settings concert_world meta pause ((worker 5, 3000) ∷ (worker 6, 4000) ∷ [])
      refl pause-reply (refl, (refl, tt))
