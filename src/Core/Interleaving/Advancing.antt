-- ===== src/Core/Interleaving/Advancing.antt =====
-- One step of a task keeps every place accounted for: createOrder and releaseOrder of orders.ts.
use antretix.Common.{
  ℕ, if◌then◌else◌, zero, suc, ◌+◌, ◌≡◌, refl, sym, ap, subst, true, false, List, [], ◌∷◌, ◌++◌,
  arith, All, inl, inr,
}
use antretix.Common.Int.{ℤ, pos, ◌≤ℤ◌, sub_nonneg}
use antretix.Shared.Keys
use antretix.Redis.{Redis}
use antretix.Database.Functions.{Sql, ReserveResult}
use antretix.Database.Consistency.{IsConsistent}
use antretix.Database.Consistency.Reserving.{reserved, unique_room, reserve_order-IsConsistent}
use antretix.Lua.Stock.{reserve, release}
use antretix.Lua.Stock.Exact.{reserve_result}
use antretix.Core.Context.{CoreSettings, World}
use antretix.Core.Orders.{CreateOrderRequest, Draw, reserve_args}
use antretix.Core.Orders.Committing.{reserve_order_outcomes, record_stat_elsewhere}
use antretix.Core.Orders.Moving.{SameStocks, room_of_ok}
use antretix.Core.InStep.{Placed}
use antretix.Core.InStep.Ordering.{reserved-Placed}
use antretix.Core.Interleaving.{
  Task, asking, committing, recording, giving_back, restocking, advance, step_at, is_granted,
  carried, on_the_way, single, committed,
}
use antretix.Core.Interleaving.Moving.{Adds, Adds-same, Adds-take, Adds-give, Adds-hold}

pub granted_reply : (a : ℤ) → pos 0 ≤ℤ a → is_granted a ≡ true
granted_reply a h = ground arith

pub on_the_way-append :
    (ts us : List Task) (e k : ℕ)
    → on_the_way (ts ++ us) e k ≡ on_the_way ts e k + on_the_way us e k
on_the_way-append [] us e k = omega arith
on_the_way-append (t ∷ ts) us e k = omega (arith, on_the_way-append ts us e k)

module _ (R : Redis) where
  open R use {Store}

  pub record InFlight (w : World R) (m : ℕ → ℕ → ℕ) : Type 0 where
    pub consistent : IsConsistent w.db
    pub placed : Placed w.db.categories w.db.orders w.db.items
    pub adds : All (Adds R w.redis m) w.db.categories

  pub InFlight-same :
      (w : World R) (s : Store) (m m' : ℕ → ℕ → ℕ)
      → SameStocks R w.redis s
      → ((e k : ℕ) → m' e k ≡ m e k)
      → InFlight w m
      → InFlight (record w { redis = s }) m'
  InFlight-same w s m m' same eq v = record {
    consistent = v.consistent;
    placed = v.placed;
    adds = Adds-same R w.redis s m m' w.db.categories same eq v.adds;
  }

  -- What a step leaves is on the way beside `m`.
  abbrev pub Leaves : (ℕ → ℕ → ℕ) → World R × List Task → Type 0
  Leaves m (w, ts) = InFlight w (λ e k. on_the_way ts e k + m e k)

  ask-InFlight :
      (w : World R) (settings : CoreSettings) (r : CreateOrderRequest) (draw : Draw) (now : ℕ)
      (m : ℕ → ℕ → ℕ)
      → InFlight w (λ e k. 0 + m e k)
      → Leaves m (advance R (asking settings r draw now) w)
  unfolding advance
  ask-InFlight w settings r draw now m v =
      let e = r.meta.event.id in
      let limit = r.meta.event.max_per_user in
      let result =
        reserve R w.redis (Keys.stock e r.category_id) (Keys.bought e r.user_id) r.qty limit in
      elim (reserve_result R w.redis e r.category_id r.user_id r.qty limit) [
        | inl (n, g) ↦
            let granted : is_granted result.0 ≡ true =
              granted_reply result.0
                (subst (λ a. pos 0 ≤ℤ a) (sym g.3) (sub_nonneg n (pos r.qty) g.2)) in
            subst
              (λ b. Leaves m (
                record w { redis = result.1 },
                if b then committing settings r draw now ∷ [] else [],
              ))
              (sym granted)
              (record {
                consistent = v.consistent;
                placed = v.placed;
                adds =
                    Adds-same R result.1 result.1 _ _ w.db.categories (λ e k. refl)
                      (λ e k. omega arith)
                      (Adds-take R w.redis result.1 e r.category_id r.user_id r.qty limit n result.0
                        (λ e k. 0 + m e k) w.db.categories g v.adds);
              })
        | inr (same, why) ↦
            let refused : is_granted result.0 ≡ false = elim why [
              | inl (unknown, _) ↦ ap is_granted unknown
              | inr (inl (over, _)) ↦ ap is_granted over
              | inr (inr (short, _)) ↦ ap is_granted short
            ] in
            subst
              (λ b. Leaves m (
                record w { redis = result.1 },
                if b then committing settings r draw now ∷ [] else [],
              ))
              (sym refused) (subst (λ s. Leaves m (record w { redis = s }, [])) (sym same) v)
      ]

  commit-InFlight :
      (w : World R) (settings : CoreSettings) (r : CreateOrderRequest) (draw : Draw) (now : ℕ)
      (m : ℕ → ℕ → ℕ)
      → InFlight w (λ e k. carried (committing settings r draw now) e k + m e k)
      → Leaves m (advance R (committing settings r draw now) w)
  unfolding advance
  commit-InFlight w settings r draw now m v =
      let p = reserve_args settings r draw now in
      let kept = reserve_order-IsConsistent w.db p v.consistent in
      let left : Sql ReserveResult → Type 0 =
        λ result. Leaves m (committed R w r draw now result) in
      let back : Leaves m (w, giving_back r ∷ []) =
        InFlight-same w w.redis _ _ (λ e k. refl) (λ e k. omega arith) v in
      elim (reserve_order_outcomes w.db p) [
        | inl raised ↦ subst left (sym raised) back
        | inr (inl limit) ↦ subst left (sym limit) back
        | inr (inr (inl out)) ↦ subst left (sym out) back
        | inr (inr (inr (price, ok))) ↦
            let (c, room) = room_of_ok w.db (reserved w.db p price) p ok in
            subst left (sym ok) (record {
              consistent = rw (ok) at kept;
              placed = reserved-Placed w.db p price c v.consistent.keyed room v.placed;
              adds =
                  Adds-hold R w.redis p (λ e k. 0 + 0 + m e k) w.db.categories
                    (unique_room p w.db.categories c v.consistent.keyed room)
                    (Adds-same R w.redis w.redis _ _ w.db.categories (λ e k. refl)
                      (λ e k. omega arith) v.adds);
            })
      ]

  give-InFlight :
      (w : World R) (e k u qty : ℕ) (m m' : ℕ → ℕ → ℕ)
      → ((e' k' : ℕ) → single e k qty e' k' + m' e' k' ≡ m e' k')
      → InFlight w m
      → InFlight
          (record w { redis = (release R w.redis (Keys.stock e k) (Keys.bought e u) qty).1 })
          m'
  give-InFlight w e k u qty m m' eq v = record {
    consistent = v.consistent;
    placed = v.placed;
    adds =
        Adds-give R w.redis e k u qty m' w.db.categories
          (Adds-same R w.redis w.redis m _ w.db.categories (λ e k. refl) eq v.adds);
  }

  advance-InFlight :
      (t : Task) (w : World R) (m : ℕ → ℕ → ℕ)
      → InFlight w (λ e k. carried t e k + m e k)
      → Leaves m (advance R t w)
  unfolding advance
  advance-InFlight (asking settings r draw now) w m v = ask-InFlight w settings r draw now m v
  advance-InFlight (committing settings r draw now) w m v =
      commit-InFlight w settings r draw now m v
  advance-InFlight (recording event order now) w m v =
      InFlight-same w _ _ _
        (λ e k.
          ap (λ x. x.counter)
            (record_stat_elsewhere R w.redis (Keys.order_stats event) order now (Keys.stock e k)
              refl))
        (λ e k. refl) v
  advance-InFlight (giving_back r) w m v =
      give-InFlight w r.meta.event.id r.category_id r.user_id r.qty _ _ (λ e k. omega arith) v
  advance-InFlight (restocking []) w m v = v
  advance-InFlight (restocking (row ∷ rows)) w m v =
      give-InFlight w row.event_id row.category_id row.user_id row.qty _ _ (λ e k. omega arith) v

  -- A list of tasks, with `m` beside it.
  pub step_at-InFlight :
      (n : ℕ) (ts : List Task) (w : World R) (m : ℕ → ℕ → ℕ)
      → InFlight w (λ e k. on_the_way ts e k + m e k)
      → Leaves m (step_at R n ts w)
  unfolding step_at
  step_at-InFlight n [] w m v = v
  step_at-InFlight zero (t ∷ ts) w m v =
      let (w', left) = advance R t w in
      let one =
        advance-InFlight t w (λ e k. on_the_way ts e k + m e k)
          (InFlight-same w w.redis _ _ (λ e k. refl) (λ e k. omega arith) v) in
      InFlight-same w' w'.redis _ _ (λ e k. refl)
        (λ e k. omega (arith, on_the_way-append left ts e k)) one
  step_at-InFlight (suc n) (t ∷ ts) w m v =
      let (w', left) = step_at R n ts w in
      let rest =
        step_at-InFlight n ts w (λ e k. carried t e k + m e k)
          (InFlight-same w w.redis _ _ (λ e k. refl) (λ e k. omega arith) v) in
      InFlight-same w' w'.redis _ _ (λ e k. refl) (λ e k. omega arith) rest
