-- ===== src/Core/Interleaving/Reaching.antt =====
-- Whatever the order of the steps, no place is lost or sold twice.
use antretix.Common.{
  ℕ, ◌≡◌, refl, sym, ap, subst, ◌∙◌, Bool, none, some, List, [], ◌∷◌, find, arith, ◌==◌, All,
  Bool-cases, Option-cases, inl, inr,
}
use antretix.Common.Int.{pos}
use antretix.Redis.{Redis}
use antretix.Shared.Policy.{check_per_user_limit}
use antretix.Core.OrderViews.{find_by_idempotency_key}
use antretix.Database.Schema.{TicketCategory, Database}
use antretix.Database.Functions.{done}
use antretix.Database.Settlement
use antretix.Database.Settlement.{
  ReleaseReason, ReleasedRow, is_releasable, set_released, set_paid, free_row, sell_row, pay_order,
}
use antretix.Database.Consistency.{after, DistinctIds}
use antretix.Database.Consistency.Settling.{
  released_database, never_negative, pending_of_releasable, release_order_total,
  release_order-IsConsistent, pay_order_cases, pay_order-IsConsistent,
}
use antretix.Database.Consistency.Histories.{on_offer, Unsold, Unsold-IsConsistent}
use antretix.Lua.Stock.Exact.{stock_of}
use antretix.Core.Context.{CoreSettings, World}
use antretix.Core.Orders.{CreateOrderRequest, Draw, is_limit_exceeded}
use antretix.Core.Releases.{requires_expired}
use antretix.Core.InStep.Placing.{only_item, not_negative, Placed-map}
use antretix.Core.InStep.Settling.{moved_row}
use antretix.Core.Interleaving.{
  create, release_for, pay, goes_on, Running, Move, step_at, act, act_all, entered, on_the_way,
  freed,
}
use antretix.Core.Interleaving.Moving.{Adds, Adds-same, Adds-free, Adds-sell}
use antretix.Core.Interleaving.Advancing.{
  InFlight, InFlight-same, on_the_way-append, step_at-InFlight,
}

none_released :
    (db : Database) (order : ℕ) (reason : ReleaseReason) (b : Bool) (now : ℕ)
    → find (is_releasable order b now) db.orders ≡ none
    → Settlement.release_order db order reason b now ≡ done [] db
unfolding Settlement.release_order
none_released db order reason b now absent = ground arith

-- A request that arrives holds nothing yet.
entered-on_the_way :
    {R : Redis} (w : World R) (settings : CoreSettings) (r : CreateOrderRequest) (draw : Draw)
    (now e k : ℕ)
    → on_the_way (entered w settings r draw now) e k ≡ 0
unfolding entered
entered-on_the_way w settings r draw now e k =
    elim (Option-cases (find_by_idempotency_key w.db r.user_id r.idempotency_key now)) [
      | inr (view, old) ↦ ground arith
      | inl new ↦ elim (Option-cases (find (λ c. c.id == r.category_id) r.meta.categories)) [
        | inl absent ↦ ground arith
        | inr (c, there) ↦
            elim (Bool-cases
              (is_limit_exceeded (check_per_user_limit 0 r.qty r.meta.event.max_per_user))) [
                | inl over ↦ ground arith
                | inr within ↦ ground arith
              ]
      ]
    ]

module _ (R : Redis) where
  open R use {Store}

  -- A running system adds up.
  abbrev pub AddsUp : Running R → Type 0
  AddsUp st = InFlight R st.world (on_the_way st.tasks)

  free-AddsUp :
      (st : Running R) (order : ℕ) (reason : ReleaseReason) (now : ℕ)
      → AddsUp st
      → AddsUp (act R st (release_for order reason now))
  unfolding act
  free-AddsUp st order reason now v =
      let b = requires_expired reason in
      let db = st.world.db in
      let result = Settlement.release_order db order reason b now in
      elim (Option-cases (find (is_releasable order b now) db.orders)) [
        | inl absent ↦
            subst (λ x. AddsUp (freed R st x)) (sym (none_released db order reason b now absent))
              (InFlight-same R st.world st.world.redis _ _ (λ e k. refl) (λ e k. omega arith) v)
        | inr (o, found) ↦
            let only =
              only_item order (is_releasable order b now) (λ x t. ground arith) db.categories
                db.orders db.items o v.consistent.paired v.placed found in
            let (o', waiting) = pending_of_releasable order b now db.orders o found in
            let fine =
              never_negative order db.orders db.items o' v.consistent.paired db.categories waiting
                v.consistent.counted in
            let fits = not_negative order db.items db.categories fine in
            let kept = release_order-IsConsistent db order reason b now v.consistent in
            let total = release_order_total db order reason b now o v.consistent found in
            subst (λ x. AddsUp (freed R st x))
              (sym (
                total ∙ ap (λ rows. done rows (released_database db order reason b now)) only.rows))
              (record {
                consistent = rw (total) at kept;
                placed =
                    Placed-map _ (set_released order reason b now)
                      (λ c. moved_row R free_row (λ n d. (refl, refl)) _ c) (λ x. ground arith)
                      db.categories db.orders db.items v.placed;
                adds =
                    Adds-same R st.world.redis st.world.redis _ _ _ (λ e k. refl)
                      (λ e k. omega arith)
                      (Adds-free R st.world.redis order o db.items db.categories db.categories _
                        only only.placed fits v.adds);
              })
      ]

  pay-AddsUp :
      (st : Running R) (order ref : ℕ) (codes : List ℕ) (now : ℕ)
      → AddsUp st
      → AddsUp (act R st (pay order ref codes now))
  unfolding act
  pay-AddsUp st order ref codes now v =
      let db = st.world.db in
      let left : Database → Type 0 =
        λ db'. InFlight R (record (st.world) { db = db' }) (on_the_way st.tasks) in
      elim (pay_order_cases db order ref codes now) [
        | inl same ↦ subst left (sym same) v
        | inr (o, ts, found, issued, result) ↦
            let fine =
              never_negative order db.orders db.items o v.consistent.paired db.categories found
                v.consistent.counted in
            let fits = not_negative order db.items db.categories fine in
            let kept = pay_order-IsConsistent db order ref codes now v.consistent in
            subst left (sym (ap (after db) result)) (record {
              consistent = rw (result) at kept;
              placed =
                  Placed-map _ (set_paid order ref now)
                    (λ c. moved_row R sell_row (λ n d. (refl, refl)) _ c) (λ x. ground arith)
                    db.categories db.orders db.items v.placed;
              adds = Adds-sell R st.world.redis order db.items _ db.categories fits v.adds;
            })
      ]

  act-AddsUp : (st : Running R) (move : Move) → AddsUp st → AddsUp (act R st move)
  unfolding act
  act-AddsUp st (create settings r draw now) v =
      let ts = entered st.world settings r draw now in
      InFlight-same R st.world st.world.redis _ _ (λ e k. refl)
        (λ e k. omega (
          arith,
          on_the_way-append ts st.tasks e k,
          entered-on_the_way st.world settings r draw now e k,
        ))
        v
  act-AddsUp st (release_for order reason now) v = free-AddsUp st order reason now v
  act-AddsUp st (pay order ref codes now) v = pay-AddsUp st order ref codes now v
  act-AddsUp st (goes_on n) v =
      let (w, ts) = step_at R n st.tasks st.world in
      let one =
        step_at-InFlight R n st.tasks st.world (λ e k. 0)
          (InFlight-same R st.world st.world.redis _ _ (λ e k. refl) (λ e k. omega arith) v) in
      InFlight-same R w w.redis _ _ (λ e k. refl) (λ e k. omega arith) one

  pub act_all-AddsUp : (ms : List Move) (st : Running R) → AddsUp st → AddsUp (act_all R st ms)
  unfolding act_all
  act_all-AddsUp [] st v = v
  act_all-AddsUp (m ∷ ms) st v = act_all-AddsUp ms (act R st m) (act-AddsUp st m v)

  Adds-offer :
      (s : Store) (cs : List TicketCategory)
      → All Unsold cs
      → All (λ c. stock_of R s c.event_id c.id ≡ some (pos c.quota)) cs
      → All (Adds R s (λ e k. 0)) cs
  Adds-offer s [] u h = tt
  Adds-offer s (c ∷ cs) u h = ((c.quota, h.0, omega (arith, u.0.0, u.0.1)), Adds-offer s cs u.1 h.1)

  -- Before the sale, with no request on its way.
  abbrev pub opening : List TicketCategory → Store → Running R
  opening cs s = record { world = record { redis = s; db = on_offer cs }; tasks = [] }

  pub opening-AddsUp :
      (cs : List TicketCategory) (s : Store)
      → DistinctIds cs
      → All Unsold cs
      → All (λ c. stock_of R s c.event_id c.id ≡ some (pos c.quota)) cs
      → AddsUp (opening cs s)
  opening-AddsUp cs s d u h = record {
    consistent = Unsold-IsConsistent cs d u;
    placed = tt;
    adds = Adds-offer s cs u h;
  }

  -- From an unsold event whose category ids are distinct, with the quota of each category as its
  -- stock in Redis, however the steps of any number of orders, releases and payments follow one
  -- another: in every category the tickets that PostgreSQL has sold, those that it holds in reserve,
  -- those on the way between the two stores and the stock in Redis, which is not negative, are
  -- together the quota.
  pub places_add_up :
      (cs : List TicketCategory) (s : Store) (ms : List Move)
      → DistinctIds cs
      → All Unsold cs
      → All (λ c. stock_of R s c.event_id c.id ≡ some (pos c.quota)) cs
      → let st = act_all R (opening cs s) ms in
        All (Adds R st.world.redis (on_the_way st.tasks)) st.world.db.categories
  places_add_up cs s ms d u h = (act_all-AddsUp ms (opening cs s) (opening-AddsUp cs s d u h)).adds
