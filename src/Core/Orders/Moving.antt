-- ===== src/Core/Orders/Moving.antt =====
-- What createOrder does to the stock of every category while no other request runs.
use antretix.Common.{
  ℕ, ◌≡◌, refl, sym, ◌∙◌, ap, ◌⊎◌, inl, inr, false, none, some, find, arith, Bool-cases,
  Option-cases,
}
use antretix.Common.Int.{ℤ, pos, ◌+ℤ◌, ◌-ℤ◌, sub_nonneg, sub_add_cancel}
use antretix.Shared.Keys
use antretix.Shared.Keys.{Key, key_eq}
use antretix.Shared.Errors.{ErrorCode, Outcome, thrown, failed}
use antretix.Redis.{Redis, or_zero}
use antretix.Database.Schema.{TicketCategory, Database}
use antretix.Database.Functions.{reserve_order, ReserveArgs, done, ReserveResult, has_room}
use antretix.Database.Consistency.Reserving.{reserved, reserve_order_results}
use antretix.Lua.Stock.{reserve, release}
use antretix.Lua.Stock.Exact.{stock_of, Grants, reserve_result, release_result}
use antretix.Core.Context.{CoreSettings, World}
use antretix.Core.OrderViews.{OrderView, find_by_idempotency_key}
use antretix.Core.Orders.{
  CreateOrderRequest, CreateOrderResult, Draw, reserve_args, reserve_in_database, settle_order,
  give_stock_back, create_order, reserve_stock,
}
use antretix.Core.Orders.Committing.{
  alone, reserve_order_outcomes, in_database_ok, in_database_refused, record_stat_elsewhere,
  no_duplicate,
}
use antretix.Core.Orders.Creating.{
  order_in_database_granted, order_in_database_refused, create_order_old, create_order_new,
}

-- An order that PostgreSQL takes has found a row with room.
pub room_of_ok :
    (db db' : Database) (p : ReserveArgs)
    → reserve_order db p ≡ done ReserveResult.ok db'
    → (c : TicketCategory) × (find (has_room p) db.categories ≡ some c)
room_of_ok db db' p h = elim (reserve_order_results db p) [
  | inl raised ↦ absurd (ground arith)
  | inr (inl limit) ↦ absurd (ground arith)
  | inr (inr (inl (full, out))) ↦ absurd (ground arith)
  | inr (inr (inr (c, room, fresh, positive, within, ok))) ↦ (c, room)
]

module _ (R : Redis) where
  open R use {Store, slot}

  abbrev pub SameStocks : Store → Store → Type 0
  SameStocks s s' = (e k : ℕ) → stock_of R s' e k ≡ stock_of R s e k

  -- Nothing moves, or the order's tickets move in both stores.
  abbrev pub Moves : World R → CoreSettings → CreateOrderRequest → Draw → ℕ → World R → Type 0
  Moves w settings r draw now w' =
      let p = reserve_args settings r draw now in
      let e = r.meta.event.id in
      ((w'.db ≡ w.db) × SameStocks w.redis w'.redis)
      ⊎ ((price : ℕ) × (n : ℤ) × (c : TicketCategory) × (find (has_room p) w.db.categories ≡ some c)
          × (w'.db ≡ reserved w.db p price)
          × (reserve_order w.db p ≡ done ReserveResult.ok w'.db)
          × (stock_of R w.redis e r.category_id ≡ some n)
          × (stock_of R w'.redis e r.category_id ≡ some (n -ℤ pos r.qty))
          × ((e' k' : ℕ)
              → key_eq (Keys.stock e r.category_id) (Keys.stock e' k') ≡ false
              → stock_of R w'.redis e' k' ≡ stock_of R w.redis e' k'))

  -- release.lua after reserve.lua leaves every stock as it was.
  given_back :
      (s : Store) (e k u qty limit : ℕ) (n : ℤ) (granted : ℤ × Store)
      → Grants R s e k u qty limit n granted
      → SameStocks s (release R granted.1 (Keys.stock e k) (Keys.bought e u) qty).1
  given_back s e k u qty limit n granted g e' k' =
      let (there, within, enough, reply, stock, held, rest) = g in
      let (answer, stock', low, high, rest') = release_result R granted.1 e k u qty in
      elim (Bool-cases (key_eq (Keys.stock e k) (Keys.stock e' k'))) [
        | inl same ↦
            let back =
              stock'
              ∙ ap some (answer ∙ ap (λ o. or_zero o +ℤ pos qty) stock ∙ sub_add_cancel n (pos qty))
              ∙ sym there in
            let e_same : e ≡ e' = ground arith in
            let k_same : k ≡ k' = ground arith in rw (sym e_same, sym k_same) back
        | inr other ↦
            ap (λ x. x.counter) (rest' (Keys.stock e' k') other refl)
            ∙ ap (λ x. x.counter) (rest (Keys.stock e' k') other refl)
      ]

  refused-Moves :
      (w : World R) (s : Store) (settings : CoreSettings) (r : CreateOrderRequest) (draw : Draw)
      (now : ℕ) (result : Outcome OrderView × World R)
      → find_by_idempotency_key w.db r.user_id r.idempotency_key now ≡ none
      → SameStocks w.redis
          (release R s
            (Keys.stock r.meta.event.id r.category_id)
            (Keys.bought r.meta.event.id r.user_id)
            r.qty).1
      → (result ≡ (failed, record w { redis = s }))
        ⊎ ((code : ErrorCode) × (result ≡ (thrown code, record w { redis = s })))
      → Moves w settings r draw now (settle_order R (alone R) result.0 result.1 r now).1
  unfolding settle_order give_stock_back
  refused-Moves w s settings r draw now result none_yet undone (inl e) =
      rw (e, no_duplicate R (give_stock_back R (alone R) (record w { redis = s }) r) r now none_yet)
        (inl (refl, undone))
  refused-Moves w s settings r draw now result none_yet undone (inr (code, e)) =
      rw e (inl (refl, undone))

  granted-Moves :
      (w : World R) (s : Store) (settings : CoreSettings) (r : CreateOrderRequest) (draw : Draw)
      (now : ℕ) (n : ℤ) (reply : ℤ)
      → find_by_idempotency_key w.db r.user_id r.idempotency_key now ≡ none
      → Grants R w.redis r.meta.event.id r.category_id r.user_id r.qty r.meta.event.max_per_user n
          (reply, s)
      → let (outcome, w1) =
          reserve_in_database R (alone R) (record w { redis = s }) settings r draw now in
        Moves w settings r draw now (settle_order R (alone R) outcome w1 r now).1
  unfolding settle_order
  granted-Moves w s settings r draw now n reply none_yet g =
      let p = reserve_args settings r draw now in
      let (there, within, enough, _, stock, held, rest) = g in
      let undone = given_back w.redis _ _ _ r.qty _ n (reply, s) g in
      let w1 = record w { redis = s } in
      let refused = in_database_refused R w1 settings r draw now in
      let leaves = refused-Moves w s settings r draw now _ none_yet undone in
      elim (reserve_order_outcomes w.db p) [
        | inl raised ↦ leaves (refused (inl raised))
        | inr (inl limit) ↦ leaves (refused (inr (inl limit)))
        | inr (inr (inl out)) ↦ leaves (refused (inr (inr out)))
        | inr (inr (inr (price, ok))) ↦
            let (c, room) = room_of_ok w.db (reserved w.db p price) p ok in
            rw (in_database_ok R w1 settings r draw now price ok) (
              inr (
                price,
                n,
                c,
                room,
                refl,
                ok,
                there,
                ap (λ x. x.counter) (record_stat_elsewhere R s _ _ now _ refl) ∙ stock,
                λ e' k' other.
                    ap (λ x. x.counter) (record_stat_elsewhere R s _ _ now _ refl)
                    ∙ ap (λ x. x.counter) (rest (Keys.stock e' k') other refl),
              ))
      ]

  unmoved :
      {result : Outcome CreateOrderResult × World R} (w : World R) (settings : CoreSettings)
      (r : CreateOrderRequest) (draw : Draw) (now : ℕ) (s : Store)
      (outcome : Outcome CreateOrderResult)
      → s ≡ w.redis
      → result ≡ (outcome, record w { redis = s })
      → Moves w settings r draw now result.1
  unmoved w settings r draw now s outcome same e = rw (e, same) (inl (refl, λ e k. refl))

  reserve_stock-Moves :
      (w : World R) (settings : CoreSettings) (r : CreateOrderRequest) (draw : Draw) (now : ℕ)
      → find_by_idempotency_key w.db r.user_id r.idempotency_key now ≡ none
      → Moves w settings r draw now (reserve_stock R (alone R) w settings r draw now).1
  unfolding reserve_stock
  reserve_stock-Moves w settings r draw now none_yet =
      let e = r.meta.event.id in
      let limit = r.meta.event.max_per_user in
      let reply =
        reserve R w.redis (Keys.stock e r.category_id) (Keys.bought e r.user_id) r.qty limit in
      let w1 = record w { redis = reply.1 } in
      elim (reserve_result R w.redis e r.category_id r.user_id r.qty limit) [
        | inl (n, g) ↦
            rw
              (order_in_database_granted R w1 settings r draw now reply.0
                (rw g.3 (sub_nonneg n (pos r.qty) g.2)))
              (granted-Moves w reply.1 settings r draw now n reply.0 none_yet g)
        | inr (same, why) ↦
            let (code, result) =
              order_in_database_refused R w1 settings r draw now reply.0 (elim why [
                | inl (unknown, _) ↦ inl unknown
                | inr (inl (over, _)) ↦ inr (inl over)
                | inr (inr (short, _)) ↦ inr (inr short)
              ]) in
            unmoved w settings r draw now reply.1 (thrown code) same result
      ]

  pub create_order-Moves :
      (w : World R) (settings : CoreSettings) (r : CreateOrderRequest) (draw : Draw) (now : ℕ)
      → Moves w settings r draw now (create_order R (alone R) w settings r draw now).1
  create_order-Moves w settings r draw now =
      let stay = unmoved w settings r draw now w.redis in
      elim (Option-cases (find_by_idempotency_key w.db r.user_id r.idempotency_key now)) [
        | inr (view, old) ↦
            stay _ refl (create_order_old R (alone R) w settings r draw now view old)
        | inl new ↦ elim (create_order_new R (alone R) w settings r draw now new) [
          | inl e ↦ stay (thrown ErrorCode.not_found) refl e
          | inr (inl e) ↦ stay (thrown ErrorCode.limit_exceeded) refl e
          | inr (inr e) ↦ rw e (reserve_stock-Moves w settings r draw now new)
        ]
      ]
