-- ===== src/Core/InStep/Serving.antt =====
-- Any sequence of orders, releases, expiry batches and payment notifications, one after another.
use antretix.Common.{ℕ, ◌≡◌, ◌∙◌, ap, Bool, Option, none, some, List, [], ◌∷◌, arith, All}
use antretix.Common.Int.{pos, ◌-ℤ◌, eq_of_parts, -ℤ_parts}
use antretix.Shared.Errors.{Outcome, returned, thrown, failed}
use antretix.Redis.{Redis}
use antretix.Database.Schema.{TicketCategory, Order}
use antretix.Database.Settlement.{ReleaseReason}
use antretix.Database.Consistency.{DistinctIds}
use antretix.Database.Consistency.Histories.{on_offer, Unsold, Unsold-IsConsistent}
use antretix.Lua.Stock.Exact.{stock_of}
use antretix.Core.Context.{CoreSettings, World}
use antretix.Core.Orders.{CreateOrderRequest, Draw, create_order}
use antretix.Core.Orders.Committing.{alone}
use antretix.Core.Payments.{PaymentWebhookPayload, PaymentOutcome, handle_payment_notification}
use antretix.Core.Reconcile.{db_available_of}
use antretix.Core.Releases.{
  release_order, release_each, expire_due_orders, due_orders, count_released,
}
use antretix.Core.InStep.{Stocked, IsInStep}
use antretix.Core.InStep.Ordering.{create_order-IsInStep}
use antretix.Core.InStep.Paying.{Kept, handle_payment_notification-Kept}
use antretix.Core.InStep.Settling.{release_order-IsInStep}

-- A request, as it reaches packages/core, with what it draws and its time.
pub data Request : Type 0 where
  order_for : CoreSettings → CreateOrderRequest → Draw → ℕ → Request
  release_for : ℕ → ReleaseReason → ℕ → Request
  expire_batch : ℕ → ℕ → Request
  notify : PaymentWebhookPayload → (ℕ → List ℕ) → ℕ → Request

module _ (R : Redis) where
  open R use {Store}

  release_each-IsInStep :
      (os : List Order) (w : World R) (now n : ℕ)
      → IsInStep R w
      → IsInStep R (release_each R w os now n).1
  unfolding release_each
  release_each-IsInStep [] w now n v = v
  release_each-IsInStep (o ∷ os) w now n v =
      let (outcome, w1) = release_order R w o.id ReleaseReason.expired now in
      let one = release_order-IsInStep R w o.id ReleaseReason.expired now v in
      let rest = release_each-IsInStep os w1 now (count_released R outcome n) one in
      by_outcome outcome (release_each R w1 os now (count_released R outcome n)) one rest
    where
      by_outcome :
          (outcome : Outcome Bool) {w1 : World R} (later : Outcome ℕ × World R)
          → IsInStep R w1
          → IsInStep R later.1
          → let result : Outcome ℕ × World R = elim outcome [ failed ↦ (failed, w1) | _ ↦ later ] in
            IsInStep R result.1
      by_outcome (returned b) later one rest = rest
      by_outcome (thrown e) later one rest = rest
      by_outcome failed later one rest = one

  -- What is left of an answer that may not have come.
  abbrev pub world_after : World R → Option (Outcome PaymentOutcome × World R) → World R
  world_after w none = w
  world_after w (some (outcome, w')) = w'

  -- One request from beginning to end, while no other runs; a notification has two rounds.
  unfoldable pub serve : World R → Request → World R
  serve w (order_for settings r draw now) = (create_order R (alone R) w settings r draw now).1
  serve w (release_for order reason now) = (release_order R w order reason now).1
  serve w (expire_batch batch now) = (expire_due_orders R w batch now).1
  serve w (notify payload codes now) =
      world_after w (handle_payment_notification R (λ n m v. v) 2 w payload codes now)

  abbrev pub serve_all : World R → List Request → World R
  serve_all w [] = w
  serve_all w (q ∷ qs) = serve_all (serve w q) qs

  world_after-IsInStep :
      (w : World R) (answer : Option (Outcome PaymentOutcome × World R))
      → IsInStep R w
      → Kept R answer
      → IsInStep R (world_after w answer)
  world_after-IsInStep w none v k = v
  world_after-IsInStep w (some (outcome, w')) v k = k

  serve-IsInStep : (w : World R) (q : Request) → IsInStep R w → IsInStep R (serve w q)
  unfolding serve expire_due_orders
  serve-IsInStep w (order_for settings r draw now) v =
      create_order-IsInStep R w settings r draw now v
  serve-IsInStep w (release_for order reason now) v = release_order-IsInStep R w order reason now v
  serve-IsInStep w (expire_batch batch now) v =
      release_each-IsInStep (due_orders w.db batch now) w now 0 v
  serve-IsInStep w (notify payload codes now) v =
      world_after-IsInStep w _ v (handle_payment_notification-Kept R 2 w payload codes now v)

  serve_all-IsInStep :
      (qs : List Request) (w : World R) → IsInStep R w → IsInStep R (serve_all w qs)
  serve_all-IsInStep [] w v = v
  serve_all-IsInStep (q ∷ qs) w v = serve_all-IsInStep qs (serve w q) (serve-IsInStep w q v)

  -- Before the sale: nothing sold, and the quota as the stock.
  Stocked-offer :
      (s : Store) (cs : List TicketCategory)
      → All Unsold cs
      → All (λ c. stock_of R s c.event_id c.id ≡ some (pos c.quota)) cs
      → Stocked R s cs
  Stocked-offer s [] u h = tt
  Stocked-offer s (c ∷ cs) u h = (
    h.0
        ∙ ap some (
            eq_of_parts _ _ (
              omega (
                arith,
                u.0.0,
                u.0.1,
                -ℤ_parts (pos c.quota) (pos c.sold),
                -ℤ_parts (pos c.quota -ℤ pos c.sold) (pos c.reserved),
              ))),
    Stocked-offer s cs u.1 h.1,
  )

  -- From an event whose category ids are distinct, with nothing sold or reserved and the quota of
  -- each category as its stock in Redis: after any sequence of orders, releases, expiry batches and
  -- payment notifications, each served while no other runs, the stock of every category in Redis is
  -- its quota less what PostgreSQL has sold and reserved.
  pub stock_in_step :
      (cs : List TicketCategory) (s : Store) (qs : List Request)
      → DistinctIds cs
      → All Unsold cs
      → All (λ c. stock_of R s c.event_id c.id ≡ some (pos c.quota)) cs
      → let w = serve_all (record { redis = s; db = on_offer cs }) qs in
        All (λ c. stock_of R w.redis c.event_id c.id ≡ some (db_available_of c)) w.db.categories
  stock_in_step cs s qs d u h =
      (serve_all-IsInStep qs (record { redis = s; db = on_offer cs })
        (record {
          consistent = Unsold-IsConsistent cs d u;
          placed = tt;
          stocked = Stocked-offer s cs u h;
        })).stocked
