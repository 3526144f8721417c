-- ===== src/Core/Releases/Examples.antt =====
-- An order that is released twice, and the theorem at a concrete input.
use antretix.Common.{◌≡◌, refl, true, false, [], ◌∷◌, arith}
use antretix.Shared.Errors.{returned}
use antretix.Redis.{vacant}
use antretix.Redis.Memory.{memory}
use antretix.Database.Schema.{TicketCategory}
use antretix.Database.Functions.{held_by, reserve_order}
use antretix.Database.Settlement.{ReleaseReason}
use antretix.Database.Consistency.{IsConsistent}
use antretix.Database.Consistency.Histories.{Statement, on_offer, run}
use antretix.Core.Context.{World}
use antretix.Core.Releases.{release_order}
use antretix.Core.Releases.Once.{release_order_once}

abbrev festival : TicketCategory
festival = record {
  id = 7;
  event_id = 1;
  name = 70;
  price = 100;
  quota = 5;
  sold = 0;
  reserved = 0;
  sort_order = 0;
}

-- Account 11 has ordered two tickets until 600.
abbrev pub world : World memory
world = record {
  redis = λ k. vacant;
  db = run (on_offer (festival ∷ [])) (
      Statement.reserve (record {
        order_id = 1;
        code = 1;
        user_id = 11;
        event_id = 1;
        category_id = 7;
        qty = 2;
        max_per_user = 4;
        idempotency_key = (11, 1);
        expires_at = 600;
        item_id = 1;
        now = 0;
      })
      ∷ []);
}

pub world-IsConsistent : IsConsistent world.db
unfolding reserve_order held_by
world-IsConsistent = ground arith

release_order-world : (release_order memory world 1 ReleaseReason.expired 700).0 ≡ returned true
unfolding release_order reserve_order held_by antretix.Database.Settlement.release_order
release_order-world = refl

release_order_once_example :
    let w1 = (release_order memory world 1 ReleaseReason.expired 700).1 in
    release_order memory w1 1 ReleaseReason.cancelled 800 ≡ (returned false, w1)
release_order_once_example =
    release_order_once memory world 1 ReleaseReason.expired ReleaseReason.cancelled 700 800
      world-IsConsistent release_order-world
