-- ===== src/Core/Payments/Replay.antt =====
-- A payment that has been taken is not taken again.
use antretix.Common.{
  ℕ, suc, ◌≡◌, refl, sym, subst, ◌⊎◌, inl, inr, Bool, true, false, none, some, List, [], ◌∷◌, map,
  find, arith, ◌==◌, Bool-cases, Option-cases, take,
}
use antretix.Shared.Constants.{pending, paid}
use antretix.Shared.Errors.{Outcome, returned, thrown, failed}
use antretix.Shared.Policy.{same_status}
use antretix.Redis.{Redis}
use antretix.Database.Schema.{Order, Database}
use antretix.Database.Functions.{done, Sql-cases}
use antretix.Database.Settlement.{
  issue, goes_negative, settle, ReleaseReason, pay_order, is_pending, set_paid,
}
use antretix.Core.Context.{World}
use antretix.Core.Releases.{release_order}
use antretix.Core.Payments.{
  PaymentStatus, PaymentWebhookPayload, paid_now, already_paid, handle_payment_notification,
  ticket_count, cancel_reply, settle_payment, refund,
}
use antretix.Core.Payments.Notifications.{not_pending, find_named, pay_order_lost}

find_paid :
    (order ref now : ℕ) (os : List Order) (o : Order)
    → find (λ p. p.id == order) os ≡ some o
    → find (λ p. p.id == order) (map (set_paid order ref now) os) ≡ some (set_paid order ref now o)
find_paid order ref now [] o f = cc
find_paid order ref now (x ∷ os) o f = ground (arith, find_paid order ref now os o)

-- The order that a payment leaves under its id.
pay_order_taken :
    (db db' : Database) (order ref : ℕ) (codes : List ℕ) (now : ℕ) (o : Order)
    → pay_order db order ref codes now ≡ done true db'
    → find (λ p. p.id == order) db.orders ≡ some o
    → find (λ p. p.id == order) db'.orders ≡ some (set_paid order ref now o)
unfolding pay_order settle
pay_order_taken db db' order ref codes now o e f =
    let moved = find_paid order ref now db.orders o f in
    elim (Option-cases (find (is_pending order) db.orders)) [
      | inl none_left ↦ ground arith
      | inr (p, g) ↦ elim (Option-cases (issue db order codes)) [
        | inl no_code ↦ ground arith
        | inr (ts, issued) ↦ elim (Bool-cases (goes_negative order db.items db.categories)) [
          | inl negative ↦ ground arith
          | inr enough ↦
              let orders : db'.orders ≡ map (set_paid order ref now) db.orders = ground arith in
              rw orders moved
        ]
      ]
    ]

cancel_reply_unpaid : (outcome : Outcome Bool) → cancel_reply outcome ≡ returned paid_now → ⊥
unfolding cancel_reply
cancel_reply_unpaid (returned true) h = ground arith
cancel_reply_unpaid (returned false) h = ground arith
cancel_reply_unpaid (thrown code) h = ground arith
cancel_reply_unpaid failed h = ground arith

pub Status-cases :
    (s : PaymentStatus) → (s ≡ PaymentStatus.failure) ⊎ (s ≡ PaymentStatus.settlement)
Status-cases PaymentStatus.failure = inl refl
Status-cases PaymentStatus.settlement = inr refl

module _ (R : Redis) where
  replies_already :
      (others : ℕ → ℕ → World R → World R) (rounds : ℕ) (w : World R)
      (payload : PaymentWebhookPayload) (codes : ℕ → List ℕ) (now : ℕ) (o : Order)
      → payload.status ≡ PaymentStatus.settlement
      → find (λ p. p.id == payload.order_id) w.db.orders ≡ some o
      → payload.amount ≡ o.total_price
      → o.status ≡ paid
      → handle_payment_notification R others (suc rounds) w payload codes now
        ≡ some (returned already_paid, w)
  unfolding handle_payment_notification
  replies_already others rounds w payload codes now o s f a p = ground arith

  -- What the round that takes a payment has found and left.
  abbrev Taken : World R → PaymentWebhookPayload → World R → Type 0
  Taken w payload w' =
      (payload.status ≡ PaymentStatus.settlement)
      × ((o : Order) × (find (λ p. p.id == payload.order_id) w'.db.orders ≡ some o)
          × (payload.amount ≡ o.total_price)
          × (o.status ≡ paid))

  taken :
      (rounds : ℕ) (w : World R) (payload : PaymentWebhookPayload) (codes : ℕ → List ℕ) (now : ℕ)
      (w' : World R)
      → handle_payment_notification R (λ n m v. v) (suc rounds) w payload codes now
        ≡ some (returned paid_now, w')
      → Taken w payload w'
  unfolding handle_payment_notification settle_payment refund
  taken rounds w payload codes now w' h =
      elim (Option-cases (find (λ o. o.id == payload.order_id) w.db.orders)) [
        | inl absent ↦ ground arith
        | inr (o, f) ↦ elim (Status-cases payload.status) [
          | inl cancels ↦ absurd (
              cancel_reply_unpaid (release_order R w o.id ReleaseReason.cancelled now).0
                (ground arith))
          | inr settles ↦ elim (Bool-cases (payload.amount == o.total_price)) [
            | inr wrong ↦ ground arith
            | inl right ↦ elim (Bool-cases (same_status o.status pending)) [
              | inr other ↦ ground arith
              | inl waiting ↦
                  elim (Sql-cases (
                    pay_order w.db o.id payload.transaction_id
                      (take (ticket_count w.db o.id) (codes rounds)) now)) [
                        | inl raised ↦ ground arith
                        | inr (true, db, won) ↦
                            let ref = payload.transaction_id in
                            let drawn = take (ticket_count w.db o.id) (codes rounds) in
                            let named = find_named payload.order_id w.db.orders o f in
                            let f' =
                              subst (λ k. find (λ p. p.id == k) w.db.orders ≡ some o) (sym named)
                                f in
                            let left = pay_order_taken w.db db o.id ref drawn now o won f' in
                            let left' =
                              subst
                                (λ k.
                                  find (λ p. p.id == k) db.orders ≡ some (set_paid o.id ref now o))
                                named left in
                            let same : w'.db ≡ db = ground arith in
                            (
                              settles,
                              (set_paid o.id ref now o, rw same left', ground arith, ground arith),
                            )
                        | inr (false, db, lost) ↦
                            let drawn = take (ticket_count w.db o.id) (codes rounds) in
                            let (_, gone) =
                              pay_order_lost w.db db o.id payload.transaction_id drawn now lost in
                            let named = find_named payload.order_id w.db.orders o f in
                            let gone' =
                              subst (λ k. find (is_pending k) w.db.orders ≡ none) named gone in
                            let (_, settled) = not_pending payload.order_id w.db.orders o gone' f in
                            ground arith
                      ]
            ]
          ]
        ]
      ]

  -- When a notification has made an order PAID, while no other request ran, the same notification
  -- again, at any time and with any codes, answers that it is paid already and changes nothing, so
  -- no second set of tickets is issued.
  pub payment_replay :
      (others : ℕ → ℕ → World R → World R) (rounds rounds' : ℕ) (w : World R)
      (payload : PaymentWebhookPayload) (codes codes' : ℕ → List ℕ) (now now' : ℕ) (w' : World R)
      → handle_payment_notification R (λ n m v. v) (suc rounds) w payload codes now
        ≡ some (returned paid_now, w')
      → handle_payment_notification R others (suc rounds') w' payload codes' now'
        ≡ some (returned already_paid, w')
  payment_replay others rounds rounds' w payload codes codes' now now' w' h =
      let (settles, (o, found, right, is_paid)) = taken rounds w payload codes now w' h in
      replies_already others rounds' w' payload codes' now' o settles found right is_paid
