-- ===== src/Core/InStep/Paying.antt =====
-- Payment notifications keep Redis and PostgreSQL in step.
use antretix.Common.{
  ℕ, zero, suc, ◌≡◌, refl, sym, ◌∙◌, ap, true, false, ◌||◌, Option, none, some, List, [], ◌∷◌, map,
  arith, ◌==◌, find, take, All, Bool-cases, Option-cases, inl, inr,
}
use mathlib.Core.List.{map-id}
use antretix.Common.{subst}
use antretix.Shared.Constants.{OrderStatus, pending, paid, expired, cancelled}
use antretix.Shared.Errors.{Outcome}
use antretix.Shared.Keys
use antretix.Shared.Keys.{Key, key_eq}
use antretix.Shared.Policy.{same_status}
use antretix.Redis.{Redis}
use antretix.Database.Schema.{TicketCategory, Order, OrderItem, Database}
use antretix.Database.Functions.{Sql-cases}
use antretix.Database.Settlement.{ReleaseReason, pay_order}
use antretix.Database.Tally.{NoOrder, Paired, tally}
use antretix.Database.Consistency.{Counted}
use antretix.Core.Context.{World}
use antretix.Core.Orders.Committing.{record_stat_elsewhere}
use antretix.Core.Orders.Moving.{SameStocks}
use antretix.Core.Payments.{
  PaymentStatus, PaymentWebhookPayload, PaymentOutcome, set_refunded, refund, settle_payment,
  handle_payment_notification, ticket_count,
}
use antretix.Core.Payments.Replay.{Status-cases}
use antretix.Core.Queue.{leave_queue}
use antretix.Core.InStep.{Placed, IsInStep}
use antretix.Core.InStep.Placing.{Placed-map}
use antretix.Core.InStep.Ordering.{Stocked-same}
use antretix.Core.InStep.Settling.{release_order-IsInStep, pay_order-IsInStep}

-- Moving orders between statuses that hold no tickets.
module _ (g : Order → Order) (same_id : (o : Order) → (g o).id ≡ o.id) where
  NoOrder-same : (k : ℕ) (os : List Order) → NoOrder k os → NoOrder k (map g os)
  NoOrder-same k [] n = tt
  NoOrder-same k (o ∷ os) n = (rw (same_id o) n.0, NoOrder-same k os n.1)

  Paired-same : (os : List Order) (is : List OrderItem) → Paired os is → Paired (map g os) is
  Paired-same [] [] p = tt
  Paired-same [] (i ∷ is) p = absurd p
  Paired-same (o ∷ os) [] p = absurd p
  Paired-same (o ∷ os) (i ∷ is) p =
      rw (same_id o) (p.0, p.1, NoOrder-same o.id os p.2, Paired-same os is p.3)

tally-same :
    (g : Order → Order) (st : OrderStatus)
    → ((o : Order) → same_status (g o).status st ≡ same_status o.status st)
    → (c : ℕ) (os : List Order) (is : List OrderItem) → tally st c (map g os) is ≡ tally st c os is
tally-same g st same c [] is = refl
tally-same g st same c (o ∷ os) [] = refl
tally-same g st same c (o ∷ os) (i ∷ is) = rw (same o, tally-same g st same c os is) refl

Counted-same :
    (g : Order → Order)
    → ((o : Order) → same_status (g o).status paid ≡ same_status o.status paid)
    → ((o : Order) → same_status (g o).status pending ≡ same_status o.status pending)
    → (os : List Order) (is : List OrderItem) (cs : List TicketCategory) → All (Counted os is) cs
    → All (Counted (map g os) is) cs
Counted-same g p q os is [] h = tt
Counted-same g p q os is (c ∷ cs) h = (
  record {
    sold_exact = h.0.sold_exact ∙ sym (tally-same g paid p c.id os is);
    reserved_exact = h.0.reserved_exact ∙ sym (tally-same g pending q c.id os is);
    within_quota = h.0.within_quota;
  },
  Counted-same g p q os is cs h.1,
)

-- An order that is not PENDING and not PAID holds no tickets, and a refunded one does not either.
refunded_holds :
    (o : Order) (ref now : ℕ) (p : Order)
    → (same_status o.status pending || same_status o.status paid) ≡ false
    → (same_status (set_refunded o ref now p).status paid ≡ same_status p.status paid)
      × (same_status (set_refunded o ref now p).status pending ≡ same_status p.status pending)
refunded_holds o ref now p h = ground arith

module _ (R : Redis) where
  open R use {Store, slot, slot-zrem, slot-del}

  refund-IsInStep :
      (w : World R) (o : Order) (payload : PaymentWebhookPayload) (now : ℕ)
      → (same_status o.status pending || same_status o.status paid) ≡ false
      → IsInStep R w
      → IsInStep R (refund R w o payload now).1
  unfolding refund
  refund-IsInStep w o payload now holds_none v =
      let g = set_refunded o payload.transaction_id now in
      let kept = λ (p : Order). refunded_holds o payload.transaction_id now p holds_none in
      record {
        consistent = record {
          paired = Paired-same g (λ p. ground arith) w.db.orders w.db.items v.consistent.paired;
          keyed = v.consistent.keyed;
          counted =
              Counted-same g (λ p. (kept p).0) (λ p. (kept p).1) w.db.orders w.db.items
                w.db.categories v.consistent.counted;
        };
        placed =
            subst (λ cs. Placed cs (map g w.db.orders) w.db.items) (map-id w.db.categories)
              (Placed-map (λ c. c) g (λ c. (refl, refl)) (λ p. ground arith) w.db.categories
                w.db.orders w.db.items v.placed);
        stocked = v.stocked;
      }

  leave_queue-SameStocks :
      (s : Store) (event user : ℕ) → SameStocks R s (leave_queue R s event user)
  unfolding leave_queue
  leave_queue-SameStocks s event user e k = grind (arith, slot-zrem, slot-del)

  settle_payment-IsInStep :
      (w : World R) (o : Order) (now : ℕ) → IsInStep R w → IsInStep R (settle_payment R w o now)
  unfolding settle_payment
  settle_payment-IsInStep w o now v = record {
    consistent = v.consistent;
    placed = v.placed;
    stocked =
        Stocked-same R w.redis _ w.db.categories
          (λ e k.
            leave_queue-SameStocks _ o.event_id o.user_id e k
            ∙ ap (λ x. x.counter)
                (record_stat_elsewhere R w.redis (Keys.paid_stats o.event_id) o.id now
                  (Keys.stock e k) refl))
          v.stocked;
  }

  -- The answer of a notification, if there is one, comes with stores that are in step.
  abbrev pub Kept : Option (Outcome PaymentOutcome × World R) → Type 0
  Kept none = Unit
  Kept (some (outcome, w)) = IsInStep R w

  -- What follows when the amount is right and the order is PENDING.
  module _ (rounds : ℕ) (w : World R) (payload : PaymentWebhookPayload) (codes : ℕ → List ℕ)
      (now : ℕ) (o : Order) (f : find (λ p. p.id == payload.order_id) w.db.orders ≡ some o)
      (settles : payload.status ≡ PaymentStatus.settlement)
      (right : (payload.amount == o.total_price) ≡ true) where
    pending-Kept :
        same_status o.status pending ≡ true
        → same_status o.status paid ≡ false
        → (same_status o.status expired || same_status o.status cancelled) ≡ false
        → ((db : Database)
            → IsInStep R (record w { db = db })
            → Kept (
                handle_payment_notification R
                  (λ n m v. v)
                  rounds
                  (record w { db = db })
                  payload
                  codes
                  now))
        → IsInStep R w
        → Kept (handle_payment_notification R (λ n m v. v) (suc rounds) w payload codes now)
    unfolding handle_payment_notification
    pending-Kept waiting unpaid held again v =
        let drawn = take (ticket_count w.db o.id) (codes rounds) in
        let taken = pay_order-IsInStep R w o.id payload.transaction_id drawn now v in
        elim (Sql-cases (pay_order w.db o.id payload.transaction_id drawn now)) [
          | inl raised ↦
              rw (handle_payment_notification, f, settles, right, unpaid, held, waiting, raised) v
          | inr (true, db, won) ↦
              let moved : IsInStep R (record w { db = db }) = rw (won) at taken in
              rw (handle_payment_notification, f, settles, right, unpaid, held, waiting, won)
                (settle_payment-IsInStep (record w { db = db }) o now moved)
          | inr (false, db, lost) ↦
              let moved : IsInStep R (record w { db = db }) = rw (lost) at taken in
              rw (handle_payment_notification, f, settles, right, unpaid, held, waiting, lost)
                (again db moved)
        ]

    -- What follows when the amount is right.
    settlement-Kept :
        ((db : Database)
          → IsInStep R (record w { db = db })
          → Kept (
              handle_payment_notification R
                (λ n m v. v)
                rounds
                (record w { db = db })
                payload
                codes
                now))
        → IsInStep R w
        → Kept (handle_payment_notification R (λ n m v. v) (suc rounds) w payload codes now)
    unfolding handle_payment_notification
    settlement-Kept again v = elim (Bool-cases (same_status o.status paid)) [
      | inl taken ↦ rw (handle_payment_notification, f, settles, right, taken) v
      | inr unpaid ↦
          elim (Bool-cases (same_status o.status expired || same_status o.status cancelled)) [
            | inl given_up ↦
                rw (handle_payment_notification, f, settles, right, unpaid, given_up)
                  (refund-IsInStep w o payload now (ground arith) v)
            | inr held ↦ elim (Bool-cases (same_status o.status pending)) [
              | inr other ↦
                  rw (handle_payment_notification, f, settles, right, unpaid, held, other) v
              | inl waiting ↦ pending-Kept waiting unpaid held again v
            ]
          ]
    ]

  pub handle_payment_notification-Kept :
      (rounds : ℕ) (w : World R) (payload : PaymentWebhookPayload) (codes : ℕ → List ℕ) (now : ℕ)
      → IsInStep R w
      → Kept (handle_payment_notification R (λ n m v. v) rounds w payload codes now)
  unfolding handle_payment_notification
  handle_payment_notification-Kept zero w payload codes now v = tt
  handle_payment_notification-Kept (suc rounds) w payload codes now v =
      elim (Option-cases (find (λ o. o.id == payload.order_id) w.db.orders)) [
        | inl absent ↦ rw (handle_payment_notification, absent) v
        | inr (o, f) ↦ elim (Status-cases payload.status) [
          | inl cancels ↦
              rw (handle_payment_notification, f, cancels)
                (release_order-IsInStep R w o.id ReleaseReason.cancelled now v)
          | inr settles ↦ elim (Bool-cases (payload.amount == o.total_price)) [
            | inr wrong ↦ rw (handle_payment_notification, f, settles, wrong) v
            | inl right ↦
                settlement-Kept rounds w payload codes now o f settles right
                  (λ db.
                    handle_payment_notification-Kept rounds (record w { db = db }) payload codes
                      now)
                  v
          ]
        ]
      ]
