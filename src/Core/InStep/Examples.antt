-- ===== src/Core/InStep/Examples.antt =====
-- Two tickets ordered, paid and two more that run out, on stores in memory, and the theorem at it.
use antretix.Common.{ℕ, ◌+◌, ◌≡◌, refl, some, List, [], ◌∷◌, arith, All}
use antretix.Common.Int.{pos}
use antretix.Redis.Memory.{memory}
use antretix.Database.Consistency.Histories.{on_offer}
use antretix.Lua.Stock.Exact.{stock_of}
use antretix.Core.Orders.Examples.{festival, settings, two_tickets, draw, world}
use antretix.Core.Payments.{PaymentStatus, PaymentWebhookPayload}
use antretix.Core.Reconcile.{db_available_of}
use antretix.Core.InStep.Serving.{
  Request, order_for, expire_batch, notify, serve, serve_all, stock_in_step,
}

abbrev payment : PaymentWebhookPayload
payment = record {
  order_id = 501;
  transaction_id = 77;
  status = PaymentStatus.settlement;
  amount = 200;
  timestamp = 4000;
}

abbrev codes : ℕ → List ℕ
codes n = n ∷ (n + 100) ∷ []

abbrev requests : List Request
requests =
    order_for settings two_tickets (draw 501) 3000
    ∷ notify payment codes 4000
    ∷ order_for settings (record two_tickets { idempotency_key = 100 }) (draw 502) 5000
    ∷ expire_batch 500 700000
    ∷ []

stock_after : stock_of memory (serve_all memory world requests).redis 1 7 ≡ some (pos 3)
unfolding serve antretix.Core.Releases.expire_due_orders antretix.Core.Releases.due_orders
    antretix.Core.Orders.create_order antretix.Core.OrderViews.find_by_idempotency_key
    antretix.Core.Payments.handle_payment_notification antretix.Shared.Policy.check_per_user_limit
    antretix.Lua.Stock.reserve antretix.Common.Int.◌+ℤ◌ antretix.Common.Int.◌-ℤ◌
    antretix.Database.Functions.reserve_order antretix.Database.Functions.held_by
    antretix.Database.Settlement.pay_order antretix.Core.Payments.ticket_count
    antretix.Core.Queue.leave_queue antretix.Database.Settlement.release_order
    antretix.Lua.Stock.release
stock_after = refl

stock_in_step_example :
    let w =
      serve_all memory (record { redis = world.redis; db = on_offer (festival ∷ []) }) requests in
    All (λ c. stock_of memory w.redis c.event_id c.id ≡ some (db_available_of c)) w.db.categories
stock_in_step_example =
    stock_in_step memory (festival ∷ []) world.redis requests (tt, tt) ((refl, refl), tt) (refl, tt)
