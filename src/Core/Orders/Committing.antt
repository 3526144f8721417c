-- ===== src/Core/Orders/Committing.antt =====
-- From a granted reservation in Redis to the end of createOrder, while no other request runs.
use antretix.Common.{ℕ, ◌≡◌, refl, sym, ◌∙◌, ap, ◌⊎◌, inl, inr, true, false, none, some, arith}
use antretix.Common.Int.{ℤ, pos, ◌+ℤ◌, ◌-ℤ◌, ◌≤ℤ◌, add_sub_cancel, sub_add_cancel, le_add_left}
use antretix.Shared.Keys
use antretix.Shared.Keys.{Key, key_eq}
use antretix.Shared.Errors.{ErrorCode, Outcome, returned, thrown, failed}
use antretix.Redis.{Redis, or_zero}
use antretix.Database.Schema.{Database}
use antretix.Database.Functions.{
  new_order, reserve_order, ReserveArgs, done, exception, ReserveResult,
}
use antretix.Database.Consistency.Reserving.{reserved, reserve_order_results}
use antretix.Lua.Stock.{release}
use antretix.Lua.Stock.Exact.{stock_of, held_of, Grants, release_result}
use antretix.Core.Context.{CoreSettings, World}
use antretix.Core.OrderViews.{OrderView, to_order_view, find_by_idempotency_key}
use antretix.Core.Orders.{
  CreateOrderRequest, CreateOrderResult, Draw, reserve_args, reserve_in_database, settle_order,
  give_stock_back, find_duplicate, record_stat,
}

-- What reserve_order gives: new tables only for an order.
pub reserve_order_outcomes :
    (db : Database) (p : ReserveArgs)
    → (reserve_order db p ≡ exception)
      ⊎ (reserve_order db p ≡ done ReserveResult.limit_exceeded db)
      ⊎ (reserve_order db p ≡ done ReserveResult.out_of_stock db)
      ⊎ ((price : ℕ) × (reserve_order db p ≡ done ReserveResult.ok (reserved db p price)))
reserve_order_outcomes db p = elim (reserve_order_results db p) [
  | inl raised ↦ inl raised
  | inr (inl limit) ↦ inr (inl limit)
  | inr (inr (inl (full, out))) ↦ inr (inr (inl out))
  | inr (inr (inr (c, room, fresh, positive, within, ok))) ↦ inr (inr (inr (c.price, ok)))
]

module _ (R : Redis) where
  open R use {Store, slot, slot-zadd, slot-zremrangebyscore}

  -- No other request runs.
  abbrev pub alone : ℕ → World R → World R
  alone n w = w

  -- release.lua undoes what reserve.lua granted.
  abbrev pub SameStock : Store → CreateOrderRequest → Store → Type 0
  SameStock s r s' =
      (stock_of R s' r.meta.event.id r.category_id ≡ stock_of R s r.meta.event.id r.category_id)
      × (held_of R s' r.meta.event.id r.user_id ≡ held_of R s r.meta.event.id r.user_id)

  release_undoes :
      (s : Store) (r : CreateOrderRequest) (n : ℤ) (limit : ℕ) (granted : ℤ × Store)
      → pos 0 ≤ℤ held_of R s r.meta.event.id r.user_id
      → Grants R s r.meta.event.id r.category_id r.user_id r.qty limit n granted
      → SameStock s r
          (release R granted.1
            (Keys.stock r.meta.event.id r.category_id)
            (Keys.bought r.meta.event.id r.user_id)
            r.qty).1
  release_undoes s r n limit granted h g =
      let (there, within, enough, reply, stock, held, rest) = g in
      let (answer, stock', low, high, rest') =
        release_result R granted.1 r.meta.event.id r.category_id r.user_id r.qty in
      (
        stock'
            ∙ ap some
                (answer ∙ ap (λ o. or_zero o +ℤ pos r.qty) stock ∙ sub_add_cancel n (pos r.qty))
            ∙ sym there,
        high (rw held (le_add_left _ (pos r.qty) h))
            ∙ ap (λ x. x -ℤ pos r.qty) held
            ∙ add_sub_cancel _ (pos r.qty),
      )

  pub record_stat_elsewhere :
      (s : Store) (k : Key) (member now : ℕ) (j : Key)
      → key_eq k j ≡ false
      → slot (record_stat R s k member now) j ≡ slot s j
  unfolding record_stat
  record_stat_elsewhere s k member now j h = grind (arith, slot-zadd, slot-zremrangebyscore)

  -- The layers of an order that has been created, and the answer.
  abbrev pub Creates :
      World R
      → CoreSettings
      → CreateOrderRequest
      → Draw
      → ℕ
      → Outcome CreateOrderResult × World R
      → Type 0
  Creates w settings r draw now (outcome, w') =
      (n : ℤ) × (price : ℕ) × (stock_of R w.redis r.meta.event.id r.category_id ≡ some n)
      × (pos r.qty ≤ℤ n)
      × (stock_of R w'.redis r.meta.event.id r.category_id ≡ some (n -ℤ pos r.qty))
      × (held_of R w'.redis r.meta.event.id r.user_id
          ≡ held_of R w.redis r.meta.event.id r.user_id +ℤ pos r.qty)
      × (held_of R w.redis r.meta.event.id r.user_id +ℤ pos r.qty ≤ℤ pos r.meta.event.max_per_user)
      × (w'.db ≡ reserved w.db (reserve_args settings r draw now) price)
      × (outcome
          ≡ returned (record {
            created = true;
            order = to_order_view w'.db (new_order (reserve_args settings r draw now) price) now;
          }))

  abbrev pub IsRefusal : Outcome CreateOrderResult → Type 0
  IsRefusal outcome =
      ((code : ErrorCode) × (outcome ≡ thrown code))
      ⊎ (outcome ≡ failed)
      ⊎ ((view : OrderView) × (outcome ≡ returned (record { created = false; order = view })))

  abbrev pub Leaves : World R → CreateOrderRequest → Outcome CreateOrderResult × World R → Type 0
  Leaves w r (outcome, w') = (w'.db ≡ w.db) × SameStock w.redis r w'.redis × IsRefusal outcome

  pub in_database_ok :
      (w : World R) (settings : CoreSettings) (r : CreateOrderRequest) (draw : Draw) (now price : ℕ)
      → let args = reserve_args settings r draw now in
        let db = reserved w.db args price in
        reserve_order w.db args ≡ done ReserveResult.ok db
        → reserve_in_database R alone w settings r draw now
          ≡ (returned (to_order_view db (new_order args price) now), record w { db = db })
  unfolding reserve_in_database
  in_database_ok w settings r draw now price e = ground arith

  pub in_database_refused :
      (w : World R) (settings : CoreSettings) (r : CreateOrderRequest) (draw : Draw) (now : ℕ)
      → let result = reserve_order w.db (reserve_args settings r draw now) in
        (result ≡ exception)
          ⊎ (result ≡ done ReserveResult.limit_exceeded w.db)
          ⊎ (result ≡ done ReserveResult.out_of_stock w.db)
        → (reserve_in_database R alone w settings r draw now ≡ (failed, w))
          ⊎ ((code : ErrorCode) × (reserve_in_database R alone w settings r draw now
                ≡ (thrown code, w)))
  unfolding reserve_in_database
  in_database_refused w settings r draw now (inl e) = inl (ground arith)
  in_database_refused w settings r draw now (inr (inl e)) =
      inr (ErrorCode.limit_exceeded, ground arith)
  in_database_refused w settings r draw now (inr (inr e)) =
      inr (ErrorCode.out_of_stock, ground arith)

  pub no_duplicate :
      (w : World R) (r : CreateOrderRequest) (now : ℕ)
      → find_by_idempotency_key w.db r.user_id r.idempotency_key now ≡ none
      → find_duplicate R alone w r now ≡ (failed, w)
  unfolding find_duplicate
  no_duplicate w r now e = ground arith

  refused_order :
      (w : World R) (s : Store) (settings : CoreSettings) (r : CreateOrderRequest) (draw : Draw)
      (now : ℕ) (result : Outcome OrderView × World R)
      → find_by_idempotency_key w.db r.user_id r.idempotency_key now ≡ none
      → SameStock w.redis r
          (release R s
            (Keys.stock r.meta.event.id r.category_id)
            (Keys.bought r.meta.event.id r.user_id)
            r.qty).1
      → (result ≡ (failed, record w { redis = s }))
        ⊎ ((code : ErrorCode) × (result ≡ (thrown code, record w { redis = s })))
      → Leaves w r (settle_order R alone result.0 result.1 r now)
  unfolding settle_order give_stock_back
  refused_order w s settings r draw now result none_yet undone (inl e) =
      rw (e, no_duplicate (give_stock_back R alone (record w { redis = s }) r) r now none_yet)
        (refl, undone, inr (inl refl))
  refused_order w s settings r draw now result none_yet undone (inr (code, e)) =
      rw e (refl, undone, inl (code, refl))

  pub granted_order :
      (w : World R) (s : Store) (settings : CoreSettings) (r : CreateOrderRequest) (draw : Draw)
      (now : ℕ) (n : ℤ) (reply : ℤ)
      → find_by_idempotency_key w.db r.user_id r.idempotency_key now ≡ none
      → pos 0 ≤ℤ held_of R w.redis r.meta.event.id r.user_id
      → Grants R w.redis r.meta.event.id r.category_id r.user_id r.qty r.meta.event.max_per_user n
          (reply, s)
      → let (outcome, w1) =
          reserve_in_database R alone (record w { redis = s }) settings r draw now in
        let result = settle_order R alone outcome w1 r now in
        Creates w settings r draw now result ⊎ Leaves w r result
  unfolding settle_order
  granted_order w s settings r draw now n reply none_yet h g =
      let undone = release_undoes w.redis r n r.meta.event.max_per_user (reply, s) h g in
      let (there, within, enough, _, stock, held, rest) = g in
      let w1 = record w { redis = s } in
      let refused = in_database_refused w1 settings r draw now in
      let leaves = refused_order w s settings r draw now _ none_yet undone in
      elim (reserve_order_outcomes w.db (reserve_args settings r draw now)) [
        | inl raised ↦ inr (leaves (refused (inl raised)))
        | inr (inl limit) ↦ inr (leaves (refused (inr (inl limit))))
        | inr (inr (inl out)) ↦ inr (leaves (refused (inr (inr out))))
        | inr (inr (inr (price, ok))) ↦ rw (in_database_ok w1 settings r draw now price ok) (
            inl (
              n,
              price,
              there,
              enough,
              ap (λ x. x.counter) (record_stat_elsewhere s _ _ now _ refl) ∙ stock,
              ap (λ x. or_zero x.counter) (record_stat_elsewhere s _ _ now _ refl) ∙ held,
              within,
              refl,
              refl,
            ))
      ]
