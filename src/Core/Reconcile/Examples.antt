-- ===== src/Core/Reconcile/Examples.antt =====
-- A stock that has drifted, and the theorems at concrete inputs.
use antretix.Common.{◌≡◌, ◌≢◌, refl, some, arith, if◌then◌else◌}
use antretix.Common.Int.{pos, ◌-ℤ◌}
use antretix.Shared.Keys
use antretix.Shared.Keys.{key_eq}
use antretix.Redis.{vacant}
use antretix.Redis.Memory.{Table, memory}
use antretix.Database.Schema.{TicketCategory}
use antretix.Lua.Stock.Exact.{stock_of}
use antretix.Core.Reconcile.{db_available_of, reconcile_category, runs_of}
use antretix.Core.Reconcile.Healing.{rounds_of, reconcile_category_third}

abbrev festival : TicketCategory
festival = record {
  id = 7;
  event_id = 1;
  name = 70;
  price = 100;
  quota = 5;
  sold = 1;
  reserved = 1;
  sort_order = 0;
}

-- PostgreSQL has three tickets left, Redis says two.
abbrev drifted : Table
drifted k = if key_eq (Keys.stock 1 7) k then record vacant { counter = some (pos 2) } else vacant

festival-db_available_of : db_available_of festival ≡ pos 3
unfolding ◌-ℤ◌
festival-db_available_of = refl

drifted-differs : pos 2 ≢ db_available_of festival
unfolding ◌-ℤ◌
drifted-differs h = ground arith

drifted-fresh : rounds_of memory drifted 1 festival (pos 2) ≡ pos 1
unfolding runs_of
drifted-fresh = refl

reconcile_category_third_example :
    let s1 = (reconcile_category memory drifted 1 festival).1 in
    let s2 = (reconcile_category memory s1 1 festival).1 in
    let s3 = (reconcile_category memory s2 1 festival).1 in
    (stock_of memory s1 1 7 ≡ some (pos 2))
    × (stock_of memory s2 1 7 ≡ some (pos 2))
    × (stock_of memory s3 1 7 ≡ some (db_available_of festival))
reconcile_category_third_example =
    reconcile_category_third memory drifted 1 festival (pos 2) refl drifted-differs drifted-fresh
