-- ===== src/Core/Payments/Notifications.antt =====
-- A notification is answered after two rounds at most, and its repetition changes nothing.
use antretix.Common.{
  ℕ, suc, ◌≡◌, subst, inl, inr, Bool, true, false, none, some, List, [], ◌∷◌, map, refl, find, take,
  arith, ◌==◌, Bool-cases, Option-cases,
}
use antretix.Shared.Constants.{pending}
use antretix.Shared.Errors.{Outcome}
use antretix.Shared.Policy.{same_status}
use antretix.Redis.{Redis}
use antretix.Database.Schema.{Order, Database}
use antretix.Database.Functions.{done, Sql-cases}
use antretix.Database.Settlement
use antretix.Database.Settlement.{
  issue, goes_negative, settle, pay_order, is_pending, ReleaseReason, is_releasable, set_released,
}
use antretix.Core.Releases.{release_order, requires_expired}
use antretix.Core.Context.{World}
use antretix.Core.Payments.{
  PaymentWebhookPayload, PaymentOutcome, handle_payment_notification, ticket_count,
}

pub not_pending :
    (order : ℕ) (os : List Order) (o : Order)
    → find (is_pending order) os ≡ none
    → find (λ p. p.id == order) os ≡ some o
    → (o.id ≡ order) × (same_status o.status pending ≡ false)
not_pending order [] o e f = cc
not_pending order (x ∷ os) o e f = ground (arith, not_pending order os o)

pub find_named :
    (order : ℕ) (os : List Order) (o : Order) → find (λ p. p.id == order) os ≡ some o → o.id ≡ order
find_named order [] o f = cc
find_named order (x ∷ os) o f = ground (arith, find_named order os o)

-- After a payment that found nothing to pay, no order is PENDING under the id.
pub pay_order_lost :
    (db db' : Database) (order ref : ℕ) (codes : List ℕ) (now : ℕ)
    → pay_order db order ref codes now ≡ done false db'
    → (db' ≡ db) × (find (is_pending order) db.orders ≡ none)
unfolding pay_order settle
pay_order_lost db db' order ref codes now e =
    elim (Option-cases (find (is_pending order) db.orders)) [
      | inl none_left ↦ ground arith
      | inr (o, f) ↦ elim (Option-cases (issue db order codes)) [
        | inl no_code ↦ ground arith
        | inr (ts, issued) ↦ elim (Bool-cases (goes_negative order db.items db.categories)) [
          | inl negative ↦ ground arith
          | inr enough ↦ ground arith
        ]
      ]
    ]

-- A release makes no order PENDING.
none_pending-set_released :
    (k order now : ℕ) (reason : ReleaseReason) (b : Bool) (os : List Order)
    → find (is_pending k) os ≡ none
    → find (is_pending k) (map (set_released order reason b now) os) ≡ none
none_pending-set_released k order now reason b [] h = refl
none_pending-set_released k order now reason b (o ∷ os) h =
    ground (arith, none_pending-set_released k order now reason b os)

-- An order that is not PENDING does not become so while others run.
abbrev pub StaysSettled : (R : Redis) → (ℕ → ℕ → World R → World R) → ℕ → Type 0
StaysSettled R others k =
    (n m : ℕ) (v : World R)
    → find (is_pending k) v.db.orders ≡ none
    → find (is_pending k) (others n m v).db.orders ≡ none

pub release_order-StaysSettled :
    (R : Redis) (k order now : ℕ) (reason : ReleaseReason)
    → StaysSettled R (λ n m v. (release_order R v order reason now).1) k
unfolding release_order Settlement.release_order
release_order-StaysSettled R k order now reason n m v h =
    let b = requires_expired reason in
    elim (Option-cases (find (is_releasable order b now) v.db.orders)) [
      | inl absent ↦ rw (release_order, Settlement.release_order, absent) h
      | inr (o, found) ↦ elim (Bool-cases (goes_negative order v.db.items v.db.categories)) [
        | inl raised ↦ rw (release_order, Settlement.release_order, found, raised) h
        | inr fine ↦
            rw (release_order, Settlement.release_order, found, fine)
              (none_pending-set_released k order now reason b v.db.orders h)
      ]
    ]

module _ (R : Redis) (others : ℕ → ℕ → World R → World R) where
  -- The round ends where the order is not PENDING.
  round_ends :
      (rounds : ℕ) (w : World R) (payload : PaymentWebhookPayload) (codes : ℕ → List ℕ) (now : ℕ)
      → find (is_pending payload.order_id) w.db.orders ≡ none
      → handle_payment_notification R others (suc rounds) w payload codes now ≡ none
      → ⊥
  unfolding handle_payment_notification
  round_ends rounds w payload codes now e h =
      elim (Option-cases (find (λ o. o.id == payload.order_id) w.db.orders)) [
        | inl absent ↦ ground arith
        | inr (o, f) ↦
            let (same, settled) = not_pending payload.order_id w.db.orders o e f in ground arith
      ]

  -- A first round that goes on has found the order PENDING and no longer PENDING after the wait.
  round_again :
      (rounds : ℕ) (w : World R) (payload : PaymentWebhookPayload) (codes : ℕ → List ℕ) (now : ℕ)
      → StaysSettled R others payload.order_id
      → handle_payment_notification R others (suc rounds) w payload codes now ≡ none
      → (w1 : World R) × (find (is_pending payload.order_id) w1.db.orders ≡ none)
        × (handle_payment_notification R others rounds w1 payload codes now ≡ none)
  unfolding handle_payment_notification
  round_again rounds w payload codes now stays h =
      elim (Option-cases (find (λ o. o.id == payload.order_id) w.db.orders)) [
        | inl absent ↦ ground arith
        | inr (o, f) ↦
            let drawn = take (ticket_count w.db o.id) (codes rounds) in
            let w1 = others rounds 0 w in
            elim (Sql-cases (pay_order w1.db o.id payload.transaction_id drawn now)) [
              | inl raised ↦ ground arith
              | inr (true, db, taken) ↦ ground arith
              | inr (false, db, lost) ↦
                  let (same, gone) =
                    pay_order_lost w1.db db o.id payload.transaction_id drawn now lost in
                  let named = find_named payload.order_id w.db.orders o f in
                  let settled =
                    subst (λ k. find (is_pending k) db.orders ≡ none) named (rw same gone) in
                  (
                    others rounds 1 (record w1 { db = db }),
                    stays rounds 1 (record w1 { db = db }) settled,
                    ground arith,
                  )
            ]
      ]

  -- Whatever other requests do while a notification waits, as long as none of them makes an order
  -- PENDING again that is not: two rounds or more are enough, and the notification is answered.
  pub handle_payment_notification_total :
      (rounds : ℕ) (w : World R) (payload : PaymentWebhookPayload) (codes : ℕ → List ℕ) (now : ℕ)
      → StaysSettled R others payload.order_id
      → (answer : Outcome PaymentOutcome × World R) × (handle_payment_notification R others
            (suc (suc rounds))
            w
            payload
            codes
            now
          ≡ some answer)
  handle_payment_notification_total rounds w payload codes now stays =
      elim (Option-cases
        (handle_payment_notification R others (suc (suc rounds)) w payload codes now)) [
          | inr answer ↦ answer
          | inl more ↦
              let (w1, gone, still) = round_again (suc rounds) w payload codes now stays more in
              absurd (round_ends rounds w1 payload codes now gone still)
        ]
