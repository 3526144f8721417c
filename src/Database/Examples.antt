-- ===== src/Database/Examples.antt =====
-- The order functions on a small event, and their theorems at concrete inputs.
use antretix.Common.{ℕ, Option, ◌+◌, ◌≤◌, Bool, ◌≡◌, refl, some, List, [], ◌∷◌, All, find, arith}
use antretix.Shared.Constants.{pending}
use antretix.Database.Schema.{TicketCategory, Order, Database}
use antretix.Database.Functions.{ReserveArgs, held_by, reserve_order}
use antretix.Database.Settlement.{ReleaseReason, is_releasable, pay_order, release_order}
use antretix.Database.Consistency.{Counted, IsConsistent}
use antretix.Database.Consistency.Limits.{run_within_limit}
use antretix.Database.Consistency.Histories.{
  Statement, run, quotas, on_offer, run_never_oversells, execute-IsConsistent, execute,
}

-- Event 1 sells five tickets of category 7 at 100 each.
abbrev pub festival : TicketCategory
festival = record {
  id = 7;
  event_id = 1;
  name = 70;
  price = 100;
  quota = 5;
  sold = 0;
  reserved = 0;
  sort_order = 0;
}

abbrev pub request : ℕ → ℕ → ℕ → ReserveArgs
request order user qty = record {
  order_id = order;
  code = order + 1000;
  user_id = user;
  event_id = 1;
  category_id = 7;
  qty = qty;
  max_per_user = 4;
  idempotency_key = (user, order);
  expires_at = 600;
  item_id = order;
  now = 0;
}

-- Orders 1 and 2 take the five tickets, 3 finds none; 1 is paid, 2 runs out.
abbrev history : List Statement
history =
    Statement.reserve (request 1 11 4)
    ∷ Statement.reserve (request 2 12 1)
    ∷ Statement.reserve (request 3 13 1)
    ∷ Statement.pay 1 900 (21 ∷ 22 ∷ 23 ∷ 24 ∷ []) 50
    ∷ Statement.release 2 ReleaseReason.expired Bool.true 700
    ∷ []

-- The same without the last statement.
abbrev before_release : Database
before_release =
    run (on_offer (festival ∷ []))
      (Statement.reserve (request 1 11 4) ∷ Statement.reserve (request 2 12 1) ∷ [])

history-counters :
    let db = run (on_offer (festival ∷ [])) history in
    db.categories ≡ record festival { sold = 4; reserved = 0 } ∷ []
unfolding reserve_order pay_order release_order held_by
history-counters = refl

run_never_oversells_example :
    let db = run (on_offer (festival ∷ [])) history in
    (quotas db ≡ (7, 5) ∷ []) × All (Counted db.orders db.items) db.categories
run_never_oversells_example =
    run_never_oversells (festival ∷ []) history (tt, tt) ((refl, refl), tt)

before_release-IsConsistent : IsConsistent before_release
unfolding reserve_order held_by
before_release-IsConsistent = ground arith

execute-IsConsistent_example :
    IsConsistent (execute before_release (Statement.release 2 ReleaseReason.expired Bool.true 700))
execute-IsConsistent_example =
    execute-IsConsistent before_release (Statement.release 2 ReleaseReason.expired Bool.true 700)
      before_release-IsConsistent

abbrev second : Order
second = record {
  id = 2;
  code = 1002;
  user_id = 12;
  event_id = 1;
  status = pending;
  total_price = 100;
  expires_at = 600;
  idempotency_key = (12, 2);
  payment_ref = Option.none;
  paid_at = Option.none;
  refunded_at = Option.none;
  created_at = 0;
}

before_release-second : find (is_releasable 2 Bool.true 700) before_release.orders ≡ some second
unfolding reserve_order held_by
before_release-second = refl

run_within_limit_example : held_by (run (on_offer (festival ∷ [])) history) 11 1 ≤ 4
run_within_limit_example =
    run_within_limit (festival ∷ []) history 11 1 4 (tt, tt) ((refl, refl), tt)
      (refl, (refl, (refl, (refl, (refl, tt)))))
