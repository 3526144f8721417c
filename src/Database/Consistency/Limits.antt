-- ===== src/Database/Consistency/Limits.antt =====
-- The limit per account over any number of buyers, payments and releases.
use antretix.Common.{
  ℕ, ◌+◌, ◌≤◌, ◌≡◌, refl, Bool, true, ◌&&◌, ◌||◌, not, List, [], ◌∷◌, map, arith, leb, ◌==◌, sum,
  if◌then◌else◌, All, find, Option-cases, inl, inr,
}
use antretix.Shared.Policy.{holds_tickets}
use antretix.Database.Schema.{TicketCategory, Order, OrderItem, Database}
use antretix.Database.Functions.{ReserveArgs, counts_for, held_by, new_order, new_item}
use antretix.Database.Settlement.{set_paid, set_released, is_releasable, release_order}
use antretix.Database.Tally.{NoOrder, Paired}
use antretix.Database.Consistency.{DistinctIds, IsConsistent}
use antretix.Database.Consistency.Reserving.{reserve_order_cases, NoOrder-clashes}
use antretix.Database.Consistency.Settling.{pay_order_cases, release_order_total}
use antretix.Database.Consistency.Histories.{
  Statement, reserve, pay, release, execute, run, on_offer, Unsold, Unsold-IsConsistent,
  execute-IsConsistent,
}

-- A reservation for the event is sent with at most this limit.
abbrev pub is_limited : ℕ → ℕ → Statement → Bool
is_limited event limit (reserve p) = not (p.event_id == event) || leb p.max_per_user limit
is_limited event limit (pay order ref codes now) = true
is_limited event limit (release order reason require_expired now) = true

module _ (user event : ℕ) where
  -- The tickets of one item, if its order counts.
  abbrev row : OrderItem → List Order → ℕ
  row i os = sum (map (λ o. if counts_for user event i o then i.qty else 0) os)

  abbrev total : List Order → List OrderItem → ℕ
  total os is = sum (map (λ i. row i os) is)

  module _ (g : Order → Order)
      (same : (o : Order)
        → ((g o).id ≡ o.id) × ((g o).user_id ≡ o.user_id) × ((g o).event_id ≡ o.event_id))
      (fewer : (o : Order)
        → holds_tickets (g o).status ≡ true
        → holds_tickets o.status ≡ true) where
    row-map-le : (i : OrderItem) (os : List Order) → row i (map g os) ≤ row i os
    row-map-le i [] = omega arith
    row-map-le i (o ∷ os) = ground (arith, same o, fewer o, row-map-le i os)

    total-map-le : (os : List Order) (is : List OrderItem) → total (map g os) is ≤ total os is
    total-map-le os [] = omega arith
    total-map-le os (i ∷ is) = omega (arith, row-map-le i os, total-map-le os is)

  row_none : (i : OrderItem) (os : List Order) → NoOrder i.order_id os → row i os ≡ 0
  row_none i [] n = refl
  row_none i (o ∷ os) n = ground (arith, row_none i os n.1)

  -- A new order adds its own item only.
  total_new :
      (o : Order) (all os : List Order) (is : List OrderItem)
      → Paired os is
      → NoOrder o.id os
      → total (o ∷ all) is ≡ total all is
  total_new o all [] [] p n = refl
  total_new o all [] (i ∷ is) p n = absurd p
  total_new o all (x ∷ os) [] p n = absurd p
  total_new o all (x ∷ os) (i ∷ is) p n = ground (arith, total_new o all os is p.3 n.1)

  total_reserved :
      (p : ReserveArgs) (price : ℕ) (os : List Order) (is : List OrderItem)
      → Paired os is
      → NoOrder p.order_id os
      → total (new_order p price ∷ os) (new_item p price ∷ is)
        ≡ (if p.user_id == user && (p.event_id == event) then p.qty else 0) + total os is
  unfolding holds_tickets
  total_reserved p price os is q n =
      ground (arith, total_new (new_order p price) os os is q n, row_none (new_item p price) os n)

  execute-held_by-le :
      (db : Database) (st : Statement) (limit : ℕ)
      → IsConsistent db
      → is_limited event limit st ≡ true
      → held_by db user event ≤ limit
      → held_by (execute db st) user event ≤ limit
  unfolding held_by release_order
  execute-held_by-le db (reserve p) limit v l h = elim (reserve_order_cases db p) [
    | inl same ↦ rw same h
    | inr (c, _, clash, _, within, result) ↦
        let sum_of =
          total_reserved p c.price db.orders db.items v.paired
            (NoOrder-clashes p db.orders clash) in
        rw result (ground (arith, sum_of, within))
  ]
  execute-held_by-le db (pay order ref codes now) limit v l h =
      elim (pay_order_cases db order ref codes now) [
        | inl same ↦ rw same h
        | inr (o, ts, _, _, result) ↦ rw result (
            omega (
              arith,
              h,
              total-map-le (set_paid order ref now) (λ x. ground arith) (λ x t. ground arith)
                  db.orders db.items,
            ))
      ]
  execute-held_by-le db (release order reason b now) limit v l h =
      elim (Option-cases (find (is_releasable order b now) db.orders)) [
        | inl absent ↦ rw (release_order, absent) h
        | inr (o, found) ↦ rw (release_order_total db order reason b now o v found) (
            omega (
              arith,
              h,
              total-map-le (set_released order reason b now) (λ x. ground arith)
                  (λ x t. ground arith) db.orders db.items,
            ))
      ]

  run-held_by-le :
      (sts : List Statement) (db : Database) (limit : ℕ)
      → IsConsistent db
      → All (λ st. is_limited event limit st ≡ true) sts
      → held_by db user event ≤ limit
      → held_by (run db sts) user event ≤ limit
  run-held_by-le [] db limit v l h = h
  run-held_by-le (st ∷ sts) db limit v l h =
      run-held_by-le sts (execute db st) limit (execute-IsConsistent db st v) l.1
        (execute-held_by-le db st limit v l.0 h)

-- From an event whose category ids are distinct, with nothing sold or reserved, whatever
-- reservations, payments and releases follow one another: when every reservation for an event is
-- sent with a limit of at most `limit`, no account has more than `limit` tickets of it in orders that
-- are PENDING or PAID.
pub run_within_limit :
    (cs : List TicketCategory) (sts : List Statement) (user event limit : ℕ)
    → DistinctIds cs
    → All Unsold cs
    → All (λ st. is_limited event limit st ≡ true) sts
    → held_by (run (on_offer cs) sts) user event ≤ limit
unfolding held_by
run_within_limit cs sts user event limit d u l =
    run-held_by-le user event sts (on_offer cs) limit (Unsold-IsConsistent cs d u) l (omega arith)
