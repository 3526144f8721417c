-- ===== src/Core/Orders/Examples.antt =====
-- An order for two tickets, on stores in memory, and the theorems at concrete inputs.
use antretix.Common.{ℕ, ◌≡◌, refl, ◌⊎◌, true, false, none, some, [], ◌∷◌, arith, if◌then◌else◌}
use antretix.Common.Int.{pos}
use antretix.Shared.Constants.{pending}
use antretix.Shared.Errors.{returned}
use antretix.Shared.Keys
use antretix.Shared.Keys.{key_eq}
use antretix.Redis.{vacant}
use antretix.Redis.Memory.{memory}
use antretix.Database.Schema.{Event, EventStatus, TicketCategory}
use antretix.Database.Functions.{held_by, reserve_order}
use antretix.Database.Consistency.Histories.{on_offer}
use antretix.Core.Context.{CoreSettings, World}
use antretix.Core.OrderViews.{OrderView}
use antretix.Core.Orders.{CreateOrderRequest, CreateOrderResult, Draw, create_order}
use antretix.Core.Orders.Creating.{create_order_result, create_order_again}
use antretix.Core.Orders.Committing.{alone, Creates, Leaves}

abbrev pub festival : TicketCategory
festival = record {
  id = 7;
  event_id = 1;
  name = 70;
  price = 100;
  quota = 5;
  sold = 0;
  reserved = 0;
  sort_order = 0;
}

abbrev pub settings : CoreSettings
settings = record { hold_ttl_ms = 600000; session_ttl_ms = 900000; heartbeat_timeout_ms = 30000 }

abbrev event : Event
event = record {
  id = 1;
  name = 10;
  venue = 0;
  description = 0;
  poster_url = 0;
  starts_at = 9000;
  sale_opens_at = 2000;
  pre_queue_at = 1000;
  status = EventStatus.on_sale;
  admit_per_sec = 50;
  max_active = 500;
  max_per_user = 4;
}

abbrev pub two_tickets : CreateOrderRequest
two_tickets = record {
  meta = record { event = event; categories = festival ∷ []; stock_keys = Keys.stock 1 7 ∷ [] };
  user_id = 11;
  category_id = 7;
  qty = 2;
  idempotency_key = 99;
}

abbrev pub draw : ℕ → Draw
draw n = record { order_id = n; code = n; item_id = n }

-- Five tickets in Redis and in PostgreSQL.
abbrev pub world : World memory
world = record {
  redis =
      λ k. if key_eq (Keys.stock 1 7) k then record vacant { counter = some (pos 5) } else vacant;
  db = on_offer (festival ∷ []);
}

abbrev created_order : CreateOrderResult
created_order = record {
  created = true;
  order = record {
    id = 501;
    code = 501;
    event_id = 1;
    event_name = none;
    status = pending;
    total_price = 200;
    expires_at = 603000;
    paid_at = none;
    created_at = 3000;
    server_time = 3000;
    items = record { category_id = 7; category_name = some 70; qty = 2; unit_price = 100 } ∷ [];
    tickets = [];
  };
}

create_order-two_tickets :
    (create_order memory (alone memory) world settings two_tickets (draw 501) 3000).0
    ≡ returned created_order
unfolding create_order antretix.Core.OrderViews.find_by_idempotency_key
    antretix.Shared.Policy.check_per_user_limit antretix.Lua.Stock.reserve antretix.Common.Int.◌+ℤ◌
    antretix.Common.Int.◌-ℤ◌ reserve_order held_by antretix.Core.OrderViews.to_order_view
create_order-two_tickets = refl

create_order_result_example :
    let result = create_order memory (alone memory) world settings two_tickets (draw 501) 3000 in
    Creates memory world settings two_tickets (draw 501) 3000 result
    ⊎ Leaves memory world two_tickets result
create_order_result_example =
    create_order_result memory world settings two_tickets (draw 501) 3000 (ground arith)

create_order_again_example :
    let w' = (create_order memory (alone memory) world settings two_tickets (draw 501) 3000).1 in
    create_order memory (alone memory) w' settings two_tickets (draw 502) 3900 ≡ (
      returned
          (record { created = false; order = record created_order.order { server_time = 3900 } }),
      w',
    )
create_order_again_example =
    create_order_again memory (alone memory) world settings two_tickets (draw 501) (draw 502) 3000
      3900 created_order (ground arith) create_order-two_tickets refl
