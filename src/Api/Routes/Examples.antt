-- ===== src/Api/Routes/Examples.antt =====
-- Requests on stores in memory, and the theorems on the routes at concrete inputs.
use antretix.Common.{arith, ℕ, ◌≡◌, ◌⊎◌, refl, Option, none, some, [], ◌∷◌}
use antretix.Shared.Constants.{paused}
use antretix.Shared.Eta.Examples.{thousandths}
use antretix.Redis.Memory.{memory}
use antretix.Core.Context.{World}
use antretix.Core.Admin.{QueueAction, QueueControl, control_queue, update_rates}
use antretix.Core.Events.{EventMeta, load_event_meta, read_queue_status, write_event_config}
use antretix.Core.Events.Cache.{get_meta}
use antretix.Core.Events.Examples.{meta}
use antretix.Core.Orders.{CreateOrderRequest, Draw, create_order}
use antretix.Api.Auth.{AuthUser, Jwt, Role, once, require_admin, queue_payload}
use antretix.Api.Auth.Examples.{open_jwt, claims, session, session-admitted}
use antretix.Api.Routes.Administration.{ApiState, check_control, patch_queue, patch_queue_shows}
use antretix.Api.Routes.Orders.{OrderRequest, post_order}
use antretix.Api.Routes.Orders.Gate.{IsLetIn, post_order_gate, admitted_order}
use antretix.Worker.Admitting.Examples.{settings, concert_world}

abbrev events : ℕ → Option EventMeta
events e = some meta

abbrev request : OrderRequest (Jwt.Token open_jwt)
request = record {
  event_id = some 1;
  auth_user = some (record { sub = 20; email = 0; name = 0; role = Role.customer });
  queue_token = once (5, queue_payload claims);
  idempotency_key = some 77;
  input = some (record { category_id = 7; qty = 2 });
}

abbrev draw : Draw
draw = record { order_id = 1; code = 1001; item_id = 1 }

abbrev alone : ℕ → World memory → World memory
alone n w = w

post_order_gate_example :
    let result =
      post_order open_jwt memory alone 5 events concert_world settings request draw 700 in
    (result.1 ≡ concert_world)
    ⊎ ((order : CreateOrderRequest) × IsLetIn open_jwt 5 700 events request order
        × (result ≡ create_order memory alone concert_world settings order draw 700))
post_order_gate_example =
    post_order_gate open_jwt memory alone 5 700 events concert_world settings request draw

-- Account 20, who has a session until 9500, orders at 700.
admitted_order_example :
    post_order open_jwt memory alone 5 events concert_world settings request draw 700
    ≡ create_order memory alone concert_world settings
        (record { meta = meta; user_id = 20; category_id = 7; qty = 2; idempotency_key = 77 })
        draw
        700
admitted_order_example =
    admitted_order open_jwt thousandths memory alone session meta meta 20 500 9500 5 700 1 77 _
      (record { sub = 20; email = 0; name = 0; role = Role.customer })
      (record { category_id = 7; qty = 2 }) events concert_world settings draw session-admitted
      (omega arith) refl

abbrev administrator : Option AuthUser
administrator = some (record { sub = 1; email = 0; name = 0; role = Role.admin })

-- To pause the queue and let fewer people in.
abbrev control : QueueControl
control = record { admit_per_sec = some 5; max_active = none; action = some QueueAction.pause }

-- The cache holds the event of before.
abbrev state : ApiState memory
state = record {
  world = concert_world;
  cache = record { event_id = 1; loaded_at = 600; value = some meta } ∷ [];
}

patch_queue_shows_example :
    let st1 = (patch_queue memory state administrator (some 1) (some control)).1 in
    (get_meta 2000 st1.cache st1.world.db 1 700).0 ≡ load_event_meta st1.world.db 1
unfolding check_control require_admin patch_queue control_queue update_rates load_event_meta
    read_queue_status write_event_config
patch_queue_shows_example =
    patch_queue_shows memory state administrator (some 1) (some control) 1 control paused 2000 700
      refl refl
