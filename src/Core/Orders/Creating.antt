-- ===== src/Core/Orders/Creating.antt =====
-- What createOrder does to the two stores while no other request runs.
use antretix.Common.{
  ℕ, ◌≡◌, refl, sym, ◌∙◌, ◌⊎◌, inl, inr, true, false, none, some, find, arith, ◌==◌, Bool-cases,
  Option-cases,
}
use antretix.Common.Int.{ℤ, pos, negsuc, ◌≤ℤ◌, eqb_ℤ_negsuc, sub_nonneg}
use antretix.Shared.Keys
use antretix.Shared.Keys.{Key, key_eq}
use antretix.Shared.Policy.{check_per_user_limit}
use antretix.Shared.Errors.{ErrorCode, Outcome, returned, thrown}
use antretix.Redis.{Redis}
use antretix.Database.Schema.{Database}
use antretix.Database.Functions.{new_order}
use antretix.Database.Consistency.Reserving.{reserved}
use antretix.Lua.Stock.{reserve}
use antretix.Lua.Stock.Exact.{held_of, reserve_result}
use antretix.Core.Context.{CoreSettings, World}
use antretix.Core.OrderViews.{OrderView, to_order_view, find_by_idempotency_key}
use antretix.Core.Orders.{
  is_limit_exceeded, CreateOrderRequest, CreateOrderResult, Draw, reserve_args, create_order,
  reserve_in_database, reserve_stock, order_in_database, settle_order,
}
use antretix.Core.Orders.Committing.{alone, Creates, Leaves, granted_order}

module _ (R : Redis) where
  open R use {Store, slot}

  -- What follows a reply that is not below 0.
  pub order_in_database_granted :
      (w : World R) (settings : CoreSettings) (r : CreateOrderRequest) (draw : Draw) (now : ℕ)
      (reply : ℤ)
      → pos 0 ≤ℤ reply
      → let (outcome, w1) = reserve_in_database R (alone R) w settings r draw now in
        order_in_database R (alone R) reply w settings r draw now
        ≡ settle_order R (alone R) outcome w1 r now
  unfolding order_in_database
  order_in_database_granted w settings r draw now reply h =
      rw (eqb_ℤ_negsuc reply 0 h, eqb_ℤ_negsuc reply 1 h, eqb_ℤ_negsuc reply 2 h)

  pub order_in_database_refused :
      (w : World R) (settings : CoreSettings) (r : CreateOrderRequest) (draw : Draw) (now : ℕ)
      (reply : ℤ)
      → (reply ≡ negsuc 2) ⊎ (reply ≡ negsuc 1) ⊎ (reply ≡ negsuc 0)
      → (code : ErrorCode) × (order_in_database R (alone R) reply w settings r draw now
          ≡ (thrown code, w))
  unfolding order_in_database
  order_in_database_refused w settings r draw now reply (inl e) =
      (ErrorCode.queue_not_open, rw e refl)
  order_in_database_refused w settings r draw now reply (inr (inl e)) =
      (ErrorCode.limit_exceeded, rw e refl)
  order_in_database_refused w settings r draw now reply (inr (inr e)) =
      (ErrorCode.out_of_stock, rw e refl)

  unchanged :
      {result : Outcome CreateOrderResult × World R} (w : World R) (r : CreateOrderRequest)
      (s : Store) (code : ErrorCode)
      → s ≡ w.redis
      → result ≡ (thrown code, record w { redis = s })
      → Leaves R w r result
  unchanged w r s code same e = rw (e, same) (refl, (refl, refl), inl (code, refl))

  reserve_stock_result :
      (w : World R) (settings : CoreSettings) (r : CreateOrderRequest) (draw : Draw) (now : ℕ)
      → find_by_idempotency_key w.db r.user_id r.idempotency_key now ≡ none
      → pos 0 ≤ℤ held_of R w.redis r.meta.event.id r.user_id
      → let result = reserve_stock R (alone R) w settings r draw now in
        Creates R w settings r draw now result ⊎ Leaves R w r result
  unfolding reserve_stock
  reserve_stock_result w settings r draw now none_yet h =
      let e = r.meta.event.id in
      let limit = r.meta.event.max_per_user in
      let reply =
        reserve R w.redis (Keys.stock e r.category_id) (Keys.bought e r.user_id) r.qty limit in
      let w1 = record w { redis = reply.1 } in
      elim (reserve_result R w.redis e r.category_id r.user_id r.qty limit) [
        | inl (n, g) ↦
            rw
              (order_in_database_granted w1 settings r draw now reply.0
                (rw g.3 (sub_nonneg n (pos r.qty) g.2)))
              (granted_order R w reply.1 settings r draw now n reply.0 none_yet h g)
        | inr (same, why) ↦
            let (code, result) =
              order_in_database_refused w1 settings r draw now reply.0 (elim why [
                | inl (unknown, _) ↦ inl unknown
                | inr (inl (over, _)) ↦ inr (inl over)
                | inr (inr (short, _)) ↦ inr (inr short)
              ]) in
            inr (unchanged w r reply.1 code same result)
      ]

  module _ (others : ℕ → World R → World R) (w : World R) (settings : CoreSettings)
      (r : CreateOrderRequest) (draw : Draw) (now : ℕ) where
    pub create_order_old :
        (view : OrderView)
        → find_by_idempotency_key w.db r.user_id r.idempotency_key now ≡ some view
        → create_order R others w settings r draw now
          ≡ (returned (record { created = false; order = view }), w)
    unfolding create_order
    create_order_old view e = ground arith

    pub create_order_new :
        find_by_idempotency_key w.db r.user_id r.idempotency_key now ≡ none
        → (create_order R others w settings r draw now ≡ (thrown ErrorCode.not_found, w))
          ⊎ (create_order R others w settings r draw now ≡ (thrown ErrorCode.limit_exceeded, w))
          ⊎ (create_order R others w settings r draw now
              ≡ reserve_stock R others w settings r draw now)
    unfolding create_order
    create_order_new e = elim (Option-cases (find (λ c. c.id == r.category_id) r.meta.categories)) [
      | inl absent ↦ inl (ground arith)
      | inr (c, present) ↦
          elim (Bool-cases
            (is_limit_exceeded (check_per_user_limit 0 r.qty r.meta.event.max_per_user))) [
              | inl over ↦ inr (inl (ground arith))
              | inr within ↦ inr (inr (ground arith))
            ]
    ]

  -- With no other request running and no negative count of tickets, createOrder does one of two
  -- things. It creates the order in both layers: the stock in Redis covered the tickets and falls by
  -- them, the account's count rises by them within the limit, PostgreSQL gets the order and its item
  -- and holds the tickets, and the answer is that order. Or it refuses, with an error or with an
  -- earlier order: then PostgreSQL is unchanged, and stock and count in Redis are what they were.
  pub create_order_result :
      (w : World R) (settings : CoreSettings) (r : CreateOrderRequest) (draw : Draw) (now : ℕ)
      → pos 0 ≤ℤ held_of R w.redis r.meta.event.id r.user_id
      → let result = create_order R (alone R) w settings r draw now in
        Creates R w settings r draw now result ⊎ Leaves R w r result
  create_order_result w settings r draw now h =
      elim (Option-cases (find_by_idempotency_key w.db r.user_id r.idempotency_key now)) [
        | inr (view, old) ↦ inr (
            rw (create_order_old (alone R) w settings r draw now view old)
              (refl, (refl, refl), inr (inr (view, refl))))
        | inl new ↦ elim (create_order_new (alone R) w settings r draw now new) [
          | inl e ↦ inr (unchanged w r w.redis ErrorCode.not_found refl e)
          | inr (inl e) ↦ inr (unchanged w r w.redis ErrorCode.limit_exceeded refl e)
          | inr (inr e) ↦ rw e (reserve_stock_result w settings r draw now new h)
        ]
      ]

  found_again :
      (settings : CoreSettings) (r : CreateOrderRequest) (draw : Draw) (now now' price : ℕ)
      (db : Database)
      → let args = reserve_args settings r draw now in
        find_by_idempotency_key (reserved db args price) r.user_id r.idempotency_key now'
        ≡ some (record (to_order_view (reserved db args price) (new_order args price) now) {
          server_time = now';
        })
  unfolding find_by_idempotency_key to_order_view
  found_again settings r draw now now' price db = ground arith

  answers_again :
      (settings : CoreSettings) (r : CreateOrderRequest) (draw : Draw) (now now' price : ℕ)
      (db db' : Database) (first : CreateOrderResult)
      → let args = reserve_args settings r draw now in
        db' ≡ reserved db args price
        → returned (record { created = true; order = to_order_view db' (new_order args price) now })
          ≡ returned first
        → find_by_idempotency_key db' r.user_id r.idempotency_key now'
          ≡ some (record first.order { server_time = now' })
  answers_again settings r draw now now' price db db' first e same =
      let args = reserve_args settings r draw now in
      let view : to_order_view db' (new_order args price) now ≡ first.order = ground arith in
      rw (sym view, e) (found_again settings r draw now now' price db)

  -- Once createOrder has created an order, with no other request running and no negative count of
  -- tickets, the same request sent again, with any draw and at any time, changes nothing and
  -- answers that order, with the flag `created` off. Other requests may be let run while the second
  -- one waits.
  pub create_order_again :
      (others : ℕ → World R → World R) (w : World R) (settings : CoreSettings)
      (r : CreateOrderRequest) (draw draw' : Draw) (now now' : ℕ) (first : CreateOrderResult)
      → pos 0 ≤ℤ held_of R w.redis r.meta.event.id r.user_id
      → let (outcome, w') = create_order R (alone R) w settings r draw now in
        outcome ≡ returned first
        → first.created ≡ true
        → create_order R others w' settings r draw' now' ≡ (
          returned (record { created = false; order = record first.order { server_time = now' } }),
          w',
        )
  create_order_again others w settings r draw draw' now now' first h e created =
      let w' = (create_order R (alone R) w settings r draw now).1 in
      elim (create_order_result w settings r draw now h) [
        | inl (n, price, _, _, _, _, _, db, out) ↦
            create_order_old others w' settings r draw' now' _
              (answers_again settings r draw now now' price w.db w'.db first db (sym out ∙ e))
        | inr (_, _, inl (code, out)) ↦ let clash = sym e ∙ out in ground arith
        | inr (_, _, inr (inl out)) ↦ let clash = sym e ∙ out in ground arith
        | inr (_, _, inr (inr (view, out))) ↦ let clash = sym e ∙ out in ground arith
      ]
