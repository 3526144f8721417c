-- ===== src/Core/InStep/Settling.antt =====
-- releaseOrder and a payment keep Redis and PostgreSQL in step.
use antretix.Common.{
  ℕ, ◌+◌, ◌-◌, ◌≤◌, ◌≡◌, refl, sym, ◌∙◌, ap, true, Option, none, some, List, [], ◌∷◌, arith, ◌==◌,
  find, All, Bool-cases, Option-cases, inl, inr,
}
use antretix.Common.Int.{pos, ◌+ℤ◌, ◌-ℤ◌, eq_of_parts, +ℤ_parts, -ℤ_parts}
use antretix.Shared.Keys
use antretix.Shared.Keys.{Key, key_eq}
use antretix.Redis.{Redis, or_zero}
use antretix.Database.Schema.{TicketCategory, Order, OrderItem}
use antretix.Database.Settlement.{
  ReleaseReason, is_releasable, set_paid, set_released, sell_row, free_row, update_rows, take_qty,
  of_order, qty_of, pay_order,
}
use antretix.Database.Consistency.{after}
use antretix.Database.Consistency.Settling.{
  never_negative, pending_of_releasable, release_order_total, release_order-IsConsistent,
  pay_order_cases, pay_order-IsConsistent,
}
use antretix.Lua.Stock.{release}
use antretix.Lua.Stock.Exact.{stock_of, release_result}
use antretix.Core.Context.{World}
use antretix.Core.Releases.{requires_expired, release_order, restock}
use antretix.Core.Releases.Once.{release_order_idle, release_order_wins}
use antretix.Core.Reconcile.{db_available_of}
use antretix.Core.InStep.{belongs, Stocked, IsInStep}
use antretix.Core.InStep.Placing.{Placed-map, OnlyItem, only_item, not_negative}

available_freed :
    (c : TicketCategory) (qty : ℕ)
    → qty ≤ c.reserved
    → db_available_of (free_row qty c) ≡ db_available_of c +ℤ pos qty
available_freed c qty h =
    let q = pos c.quota -ℤ pos c.sold in
    eq_of_parts _ _ (
      omega (
        arith,
        h,
        -ℤ_parts q (pos (c.reserved - qty)),
        -ℤ_parts q (pos c.reserved),
        +ℤ_parts (q -ℤ pos c.reserved) (pos qty),
      ))

available_sold :
    (c : TicketCategory) (qty : ℕ)
    → qty ≤ c.reserved
    → db_available_of (sell_row qty c) ≡ db_available_of c
available_sold c qty h =
    let q = pos c.quota -ℤ pos c.sold in
    let q' = pos c.quota -ℤ pos (c.sold + qty) in
    eq_of_parts _ _ (
      omega (
        arith,
        h,
        -ℤ_parts (pos c.quota) (pos c.sold),
        -ℤ_parts (pos c.quota) (pos (c.sold + qty)),
        -ℤ_parts q' (pos (c.reserved - qty)),
        -ℤ_parts q (pos c.reserved),
      ))

module _ (R : Redis) where
  open R use {Store}

  -- A release restocks the categories whose rows it frees.
  Stocked-free :
      (s : Store) (order : ℕ) (o : Order) (is : List OrderItem) (all cs : List TicketCategory)
      (only : OnlyItem order o is all)
      → All (λ c. belongs only.item o c ≡ true) cs
      → All (λ c. qty_of (find (of_order order c) is) ≤ c.reserved) cs
      → Stocked R s cs
      → let i = only.item in
        Stocked R
          (release R s
            (Keys.stock o.event_id i.category_id)
            (Keys.bought o.event_id o.user_id)
            i.qty).1
          (update_rows free_row order is cs)
  Stocked-free s order o is all [] only own fits h = tt
  Stocked-free s order o is all (c ∷ cs) only own fits h =
      let i = only.item in
      let (answer, stock, low, high, rest) =
        release_result R s o.event_id i.category_id o.user_id i.qty in
      let s' =
        (release R s (Keys.stock o.event_id i.category_id) (Keys.bought o.event_id o.user_id)
          i.qty).1 in
      (
        elim (Bool-cases (c.id == i.category_id)) [
          | inl same ↦
              let k_same : c.id ≡ i.category_id = ground arith in
              let e_same : c.event_id ≡ o.event_id = ground (arith, own.0) in
              let row : find (of_order order c) is ≡ some i = only.found c ∙ rw same refl in
              let fit : i.qty ≤ c.reserved = rw row at (fits.0) in
              let held : stock_of R s o.event_id i.category_id ≡ some (db_available_of c) =
                rw (sym e_same, sym k_same) h.0 in
              let there : stock_of R s' c.event_id c.id ≡ some (db_available_of c +ℤ pos i.qty) =
                rw (e_same, k_same)
                  (stock ∙ ap some (answer ∙ ap (λ m. or_zero m +ℤ pos i.qty) held)) in
              rw row (there ∙ ap some (sym (available_freed c i.qty fit)))
          | inr other ↦
              let row : find (of_order order c) is ≡ none = only.found c ∙ rw other refl in
              rw row
                (ap (λ x. x.counter) (rest (Keys.stock c.event_id c.id) (ground arith) refl) ∙ h.0)
        ],
        Stocked-free s order o is all cs only own.1 fits.1 h.1,
      )

  -- A payment turns reserved tickets into sold ones, so no stock has to move.
  Stocked-sell :
      (s : Store) (order : ℕ) (is : List OrderItem) (cs : List TicketCategory)
      → All (λ c. qty_of (find (of_order order c) is) ≤ c.reserved) cs
      → Stocked R s cs
      → Stocked R s (update_rows sell_row order is cs)
  Stocked-sell s order is [] fits h = tt
  Stocked-sell s order is (c ∷ cs) fits h = (
    elim (Option-cases (find (of_order order c) is)) [
      | inl e ↦ rw e h.0
      | inr (i, e) ↦
          let fit : i.qty ≤ c.reserved = rw e at (fits.0) in
          rw e (h.0 ∙ ap some (sym (available_sold c i.qty fit)))
    ],
    Stocked-sell s order is cs fits.1 h.1,
  )

  pub moved_row :
      (f : ℕ → TicketCategory → TicketCategory)
      → ((n : ℕ) (c : TicketCategory) → ((f n c).id ≡ c.id) × ((f n c).event_id ≡ c.event_id))
      → (o : Option OrderItem) (c : TicketCategory)
      → ((take_qty f o c).id ≡ c.id) × ((take_qty f o c).event_id ≡ c.event_id)
  moved_row f same none c = (refl, refl)
  moved_row f same (some i) c = same i.qty c

  -- releaseOrder keeps the stores in step, whatever it answers.
  pub release_order-IsInStep :
      (w : World R) (order : ℕ) (reason : ReleaseReason) (now : ℕ)
      → IsInStep R w
      → IsInStep R (release_order R w order reason now).1
  unfolding restock
  release_order-IsInStep w order reason now v =
      let b = requires_expired reason in
      elim (Option-cases (find (is_releasable order b now) w.db.orders)) [
        | inl absent ↦ rw (release_order_idle R w order reason now absent) v
        | inr (o, found) ↦
            let only =
              only_item order (is_releasable order b now) (λ x t. ground arith) w.db.categories
                w.db.orders w.db.items o v.consistent.paired v.placed found in
            let (o', waiting) = pending_of_releasable order b now w.db.orders o found in
            let fine =
              never_negative order w.db.orders w.db.items o' v.consistent.paired w.db.categories
                waiting v.consistent.counted in
            let fits = not_negative order w.db.items w.db.categories fine in
            let kept = release_order-IsConsistent w.db order reason b now v.consistent in
            let result = release_order_total w.db order reason b now o v.consistent found in
            rw (release_order_wins R w order reason now o v.consistent found) (record {
              consistent = rw (result) at kept;
              placed =
                  Placed-map _ (set_released order reason b now)
                    (λ c. moved_row free_row (λ n d. (refl, refl)) _ c) (λ x. ground arith)
                    w.db.categories w.db.orders w.db.items v.placed;
              stocked = rw (only.rows) (
                  Stocked-free w.redis order o w.db.items w.db.categories w.db.categories only
                    only.placed fits v.stocked);
            })
      ]

  -- So does a payment in PostgreSQL.
  pub pay_order-IsInStep :
      (w : World R) (order ref : ℕ) (codes : List ℕ) (now : ℕ)
      → IsInStep R w
      → IsInStep R (record w { db = after w.db (pay_order w.db order ref codes now) })
  pay_order-IsInStep w order ref codes now v = elim (pay_order_cases w.db order ref codes now) [
    | inl same ↦ rw same v
    | inr (o, ts, found, issued, result) ↦
        let fine =
          never_negative order w.db.orders w.db.items o v.consistent.paired w.db.categories found
            v.consistent.counted in
        let fits = not_negative order w.db.items w.db.categories fine in
        let kept = pay_order-IsConsistent w.db order ref codes now v.consistent in
        rw result (record {
          consistent = rw (result) at kept;
          placed =
              Placed-map _ (set_paid order ref now)
                (λ c. moved_row sell_row (λ n d. (refl, refl)) _ c) (λ x. ground arith)
                w.db.categories w.db.orders w.db.items v.placed;
          stocked = Stocked-sell w.redis order w.db.items w.db.categories fits v.stocked;
        })
  ]
