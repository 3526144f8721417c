-- ===== src/Core/Releases/Sweeping.antt =====
-- packages/core/src/orders.ts, expireDueOrders on consistent tables: a batch releases all its orders.
use antretix.Common.{
  ℕ, suc, ◌+◌, ◌≡◌, refl, ap, subst, ◌∙◌, Bool, true, false, some, ◌==◌, List, [], ◌∷◌, map, find,
  arith, keep, take, length, min, length-take, All, All-both,
}
use antretix.Shared.Errors.{Outcome, returned, failed}
use antretix.Redis.{Redis}
use antretix.Database.Schema.{Order, Database}
use antretix.Database.Settlement.{ReleaseReason, is_releasable, released_rows}
use antretix.Database.Consistency.{IsConsistent, after}
use antretix.Database.Consistency.Settling.{
  release_order_total, released_database, release_order-IsConsistent,
}
use antretix.Core.Context.{World}
use antretix.Core.Releases.{
  release_order, restock, release_each, count_released, expire_due_orders, due_orders, by_expiry,
}
use antretix.Core.Releases.Once.{release_order_wins}
use antretix.Core.Releases.Due.{
  is_due, due, expire, present, Unique, present_found, present-moved, due-moved, expire-moved,
  released_row, All-by_expiry, All-take, Unique-by_expiry, Unique-take, Unique-keep, present_due,
  length-by_expiry,
}

released-IsConsistent :
    (db : Database) (k now : ℕ) (o : Order)
    → IsConsistent db
    → find (is_releasable k true now) db.orders ≡ some o
    → IsConsistent (released_database db k ReleaseReason.expired true now)
released-IsConsistent db k now o v f =
    let kept = release_order-IsConsistent db k ReleaseReason.expired true now v in
    subst IsConsistent
      (ap (after db) (release_order_total db k ReleaseReason.expired true now o v f)) kept

module _ (R : Redis) where
  -- The loop answers how many orders it has released, counted on from `n`.
  pub record Sweeps (w : World R) (now n count : ℕ) (result : Outcome ℕ × World R) : Type 0 where
    pub world : World R
    pub answer : result ≡ (returned (n + count), world)
    pub consistent : IsConsistent world.db
    pub left : due now world.db.orders + count ≡ due now w.db.orders
    pub orders : map (expire now) world.db.orders ≡ map (expire now) w.db.orders

  one_more :
      (o : Order) (os : List Order) (w w1 : World R) (now n : ℕ)
      → release_order R w o.id ReleaseReason.expired now ≡ (returned true, w1)
      → release_each R w (o ∷ os) now n ≡ release_each R w1 os now (suc n)
  unfolding release_each
  one_more o os w w1 now n e = ap go_on e
    where
      go_on : Outcome Bool × World R → Outcome ℕ × World R
      go_on (outcome, w2) =
          let rest = release_each R w2 os now (count_released R outcome n) in
          elim outcome [ failed ↦ (failed, w2) | _ ↦ rest ]

  release_each-Sweeps :
      (os : List Order) (w : World R) (now n : ℕ)
      → IsConsistent w.db
      → Unique os
      → All (λ o. present now o.id w.db.orders ≡ true) os
      → Sweeps w now n (length os) (release_each R w os now n)
  unfolding release_each
  release_each-Sweeps [] w now n v u h = record {
    world = w;
    answer = ap (λ m. (returned m, w)) (omega arith);
    consistent = v;
    left = omega arith;
    orders = refl;
  }
  release_each-Sweeps (o ∷ os) w now n v u h =
      let (x, found) = present_found now o.id w.db.orders h.0 in
      let rows = released_rows o.id x w.db.items in
      let w1 : World R = record w {
        redis = restock R w.redis rows;
        db = released_database w.db o.id ReleaseReason.expired true now;
      } in
      let won : release_order R w o.id ReleaseReason.expired now ≡ (returned true, w1) =
        release_order_wins R w o.id ReleaseReason.expired now x v found
        ∙ ap (λ b. (returned b, w1))
            (released_row now o.id w.db.orders w.db.items x x v.paired found) in
      let still =
        All-both (λ p. (p.id == o.id) ≡ false) (λ p. present now p.id w.db.orders ≡ true)
          (λ p. present now p.id w1.db.orders ≡ true)
          (λ p other there. present-moved now p.id o.id w.db.orders other ∙ there) os u.0 h.1 in
      let later =
        release_each-Sweeps os w1 now (suc n) (released-IsConsistent w.db o.id now x v found) u.1
          still in
      record {
        world = later.world;
        answer =
            one_more o os w w1 now n won
            ∙ later.answer
            ∙ ap (λ m. (returned m, later.world)) (omega arith);
        consistent = later.consistent;
        left =
            omega (arith, later.left, due-moved now o.id w.db.orders w.db.items x v.paired found);
        orders = later.orders ∙ expire-moved now o.id w.db.orders;
      }

  -- One batch.
  pub expire_due_orders-Sweeps :
      (w : World R) (batch now : ℕ)
      → IsConsistent w.db
      → Sweeps w now 0 (min batch (due now w.db.orders)) (expire_due_orders R w batch now)
  unfolding expire_due_orders due_orders
  expire_due_orders-Sweeps w batch now v =
      let all = keep (is_due now) w.db.orders in
      let size : length (take batch (by_expiry all)) ≡ min batch (due now w.db.orders) =
        length-take batch (by_expiry all) ∙ ap (min batch) (length-by_expiry all) in
      subst (λ m. Sweeps w now 0 m (expire_due_orders R w batch now)) size
        (release_each-Sweeps (take batch (by_expiry all)) w now 0 v
          (Unique-take batch _
            (Unique-by_expiry all (Unique-keep (is_due now) w.db.orders w.db.items v.paired)))
          (All-take _ batch _ (All-by_expiry _ all (present_due now w.db.orders))))
