-- ===== src/Core/Orders.antt =====
-- packages/core/src/orders.ts: creating an order in two layers, Redis first and PostgreSQL last.
-- While an operation waits for a reply, other requests run: `others n` is what they do to the
-- stores during its wait number n: 0 for the first query, 4 for reserve.lua, 1 for
-- antretix_reserve_order, 2 before release.lua and 3 before the query for a twin.
pub mod Committing
pub mod Creating
pub mod Moving
pub mod Examples
use antretix.Common.{
  ℕ, ◌+◌, ◌-◌, Bool, true, false, ◌&&◌, Option, none, some, List, [], ◌∷◌, map, ltb, leb, ◌==◌,
  if◌then◌else◌, find, keep, take,
}
use antretix.Common.Int.{ℤ, negsuc, eqb_ℤ}
use antretix.Shared.Constants.{OrderStatus, pending}
use antretix.Shared.Errors.{ErrorCode, Outcome, returned, thrown, failed}
use antretix.Shared.Keys
use antretix.Shared.Keys.{Key}
use antretix.Shared.Policy.{LimitDecision, check_per_user_limit}
use antretix.Redis.{Redis, id}
use antretix.Database.Schema.{TicketCategory, Order, OrderItem, Ticket, Database}
use antretix.Database.Functions.{
  ReserveArgs, ReserveResult, Sql, done, exception, same_key, reserve_order,
}
use antretix.Lua.Stock.{reserve, release}
use antretix.Core.Context.{CoreSettings, World}
use antretix.Core.Events.{EventMeta}
use antretix.Core.OrderViews.{
  OrderView, to_order_view, find_by_idempotency_key, scoped_idempotency_key,
}

pub record CreateOrderRequest : Type 0 where
  pub meta : EventMeta
  pub user_id : ℕ
  pub category_id : ℕ
  pub qty : ℕ
  pub idempotency_key : ℕ

-- What a request draws at random: two UUIDs and the order's code.
pub record Draw : Type 0 where
  pub order_id : ℕ
  pub code : ℕ
  pub item_id : ℕ

pub record CreateOrderResult : Type 0 where
  pub created : Bool
  pub order : OrderView

abbrev pub reserve_args : CoreSettings → CreateOrderRequest → Draw → ℕ → ReserveArgs
reserve_args settings r draw now = record {
  order_id = draw.order_id;
  code = draw.code;
  user_id = r.user_id;
  event_id = r.meta.event.id;
  category_id = r.category_id;
  qty = r.qty;
  max_per_user = r.meta.event.max_per_user;
  idempotency_key = scoped_idempotency_key r.user_id r.idempotency_key;
  expires_at = now + settings.hold_ttl_ms;
  item_id = draw.item_id;
  now = now;
}

unfoldable pub is_limit_exceeded : LimitDecision → Bool
is_limit_exceeded LimitDecision.limit_exceeded = true
is_limit_exceeded _ = false

module _ (R : Redis) where
  open R use {Store, zadd, zremrangebyscore}

  -- recordStat keeps the members of the last five minutes.
  unfoldable pub record_stat : Store → Key → ℕ → ℕ → Store
  record_stat s key member now =
      let s1 = zadd s key now (id member) in
      if ltb now 300000 then s1 else zremrangebyscore s1 key (now - 300000)

  module _ (others : ℕ → World R → World R) where
    -- findUniqueOrThrow
    find_order_or_throw : World R → ℕ → ℕ → Outcome OrderView
    find_order_or_throw w order now = elim (find (λ o. o.id == order) w.db.orders) [
      | none ↦ failed
      | some o ↦ returned (to_order_view w.db o now)
    ]

    unfoldable pub reserve_in_database :
        World R → CoreSettings → CreateOrderRequest → Draw → ℕ → Outcome OrderView × World R
    unfolding find_order_or_throw
    reserve_in_database w settings r draw now =
        elim (reserve_order w.db (reserve_args settings r draw now)) [
          | exception ↦ (failed, w)
          | done ReserveResult.limit_exceeded db ↦
              (thrown ErrorCode.limit_exceeded, record w { db = db })
          | done ReserveResult.out_of_stock db ↦
              (thrown ErrorCode.out_of_stock, record w { db = db })
          | done ReserveResult.ok db ↦
              let w1 = others 1 (record w { db = db }) in
              (find_order_or_throw w1 draw.order_id now, w1)
        ]

    unfoldable pub create_order_without_queue :
        World R → CoreSettings → CreateOrderRequest → Draw → ℕ → Outcome OrderView × World R
    create_order_without_queue w settings r draw now =
        elim (find (λ c. c.id == r.category_id) r.meta.categories) [
          | none ↦ (thrown ErrorCode.not_found, w)
          | some c ↦ reserve_in_database w settings r draw now
        ]

    -- The catch clause gives the stock back first.
    unfoldable give_stock_back : World R → CreateOrderRequest → World R
    give_stock_back w r =
        let w1 = others 2 w in
        let e = r.meta.event.id in
        record w1 {
          redis =
              (release R w1.redis (Keys.stock e r.category_id) (Keys.bought e r.user_id) r.qty).1;
        }

    -- An error that is no AppError: a twin of the request may have won the unique index.
    unfoldable find_duplicate :
        World R → CreateOrderRequest → ℕ → Outcome CreateOrderResult × World R
    find_duplicate w r now =
        let w1 = others 3 w in
        elim (find_by_idempotency_key w1.db r.user_id r.idempotency_key now) [
          | none ↦ (failed, w1)
          | some view ↦ (returned (record { created = false; order = view }), w1)
        ]

    unfoldable settle_order :
        Outcome OrderView → World R → CreateOrderRequest → ℕ → Outcome CreateOrderResult × World R
    unfolding give_stock_back find_duplicate record_stat
    settle_order (returned view) w r now = (
      returned (record { created = true; order = view }),
      record w { redis = record_stat w.redis (Keys.order_stats r.meta.event.id) view.id now },
    )
    settle_order (thrown code) w r now = (thrown code, give_stock_back w r)
    settle_order failed w r now = find_duplicate (give_stock_back w r) r now

    -- What follows the reply of reserve.lua.
    unfoldable order_in_database :
        ℤ
        → World R
        → CoreSettings
        → CreateOrderRequest
        → Draw
        → ℕ
        → Outcome CreateOrderResult × World R
    unfolding reserve_in_database settle_order
    order_in_database reply w settings r draw now =
        let (outcome, w1) = reserve_in_database (others 4 w) settings r draw now in
        if eqb_ℤ reply (negsuc 0)
        then (thrown ErrorCode.out_of_stock, w)
        else if eqb_ℤ reply (negsuc 1)
        then (thrown ErrorCode.limit_exceeded, w)
        else if eqb_ℤ reply (negsuc 2)
        then (thrown ErrorCode.queue_not_open, w)
        else settle_order outcome w1 r now

    unfoldable reserve_stock :
        World R → CoreSettings → CreateOrderRequest → Draw → ℕ → Outcome CreateOrderResult × World R
    unfolding order_in_database
    reserve_stock w settings r draw now =
        let w1 = others 0 w in
        let e = r.meta.event.id in
        let (reply, s) =
          reserve R w1.redis (Keys.stock e r.category_id) (Keys.bought e r.user_id) r.qty
            r.meta.event.max_per_user in
        order_in_database reply (record w1 { redis = s }) settings r draw now

    unfoldable pub create_order :
        World R → CoreSettings → CreateOrderRequest → Draw → ℕ → Outcome CreateOrderResult × World R
    unfolding is_limit_exceeded reserve_stock
    create_order w settings r draw now =
        elim (find_by_idempotency_key w.db r.user_id r.idempotency_key now) [
          | some view ↦ (returned (record { created = false; order = view }), w)
          | none ↦ elim (find (λ c. c.id == r.category_id) r.meta.categories) [
            | none ↦ (thrown ErrorCode.not_found, w)
            | some c ↦
                if is_limit_exceeded (check_per_user_limit 0 r.qty r.meta.event.max_per_user)
                then (thrown ErrorCode.limit_exceeded, w)
                else reserve_stock w settings r draw now
          ]
        ]
