-- ===== src/Core/Interleaving/Examples.antt =====
-- Two accounts order at the same time, on stores in memory, and the theorems at it.
use antretix.Common.{◌≡◌, ◌≢◌, refl, some, List, [], ◌∷◌, find, All}
use antretix.Redis.Memory.{memory}
use antretix.Database.Functions.{done, ReserveArgs, ReserveResult, reserve_order}
use antretix.Core.Orders.{CreateOrderRequest, reserve_args}
use antretix.Core.Orders.Examples.{festival, settings, two_tickets, draw, world}
use antretix.Core.Interleaving.{Running, Move, create, goes_on, committing, act_all, on_the_way}
use antretix.Core.Interleaving.Moving.{Adds}
use antretix.Core.Interleaving.Reaching.{opening, places_add_up}
use antretix.Core.Interleaving.Granting.{task_at, is_row, granted_in_stock}

abbrev other : CreateOrderRequest
other = record two_tickets { user_id = 12 }

-- Both are let through by Redis, and the first one is in PostgreSQL.
abbrev moves : List Move
moves =
    create settings two_tickets (draw 501) 3000
    ∷ create settings other (draw 502) 3001
    ∷ goes_on 0
    ∷ goes_on 1
    ∷ goes_on 1
    ∷ []

abbrev between : Running memory
between = act_all memory (opening memory (festival ∷ []) world.redis) moves

abbrev args : ReserveArgs
args = reserve_args settings other (draw 502) 3001

at_the_same_time :
    (task_at 0 between.tasks ≡ some (committing settings other (draw 502) 3001))
    × (find (is_row args) between.world.db.categories ≡ some (record festival { reserved = 2 }))
unfolding act_all antretix.Core.Interleaving.act antretix.Core.Interleaving.entered
    antretix.Core.Interleaving.step_at antretix.Core.Interleaving.advance
    antretix.Core.OrderViews.find_by_idempotency_key antretix.Shared.Policy.check_per_user_limit
    antretix.Core.Orders.is_limit_exceeded antretix.Lua.Stock.reserve antretix.Common.Int.◌+ℤ◌
    antretix.Common.Int.◌-ℤ◌ reserve_order antretix.Database.Functions.held_by
at_the_same_time = (refl, refl)

places_add_up_example :
    All (Adds memory between.world.redis (on_the_way between.tasks)) between.world.db.categories
places_add_up_example =
    places_add_up memory (festival ∷ []) world.redis moves (tt, tt) ((refl, refl), tt) (refl, tt)

granted_in_stock_example :
    reserve_order between.world.db args ≢ done ReserveResult.out_of_stock between.world.db
granted_in_stock_example =
    granted_in_stock memory (festival ∷ []) world.redis moves 0 settings other (draw 502) 3001
      (record festival { reserved = 2 }) (tt, tt) ((refl, refl), tt) (refl, tt) at_the_same_time.0
      at_the_same_time.1
