-- ===== src/Core/Payments.antt =====
-- packages/core/src/payments.ts: the signature of a payment notification and what it does to the
-- order. While handlePaymentNotification waits, other requests run: `others n m` is what they do in
-- the round with n rounds left, before its statement (0) and once the statement has run (1). The
-- HMAC of node:crypto is a parameter.
pub mod Signature
pub mod Notifications
pub mod Replay
pub mod Examples
use antretix.Common.{
  ℕ, zero, suc, ◌+◌, ◌-◌, Bool, true, false, not, ◌&&◌, ◌||◌, Option, none, some, List, [], ◌∷◌,
  map, ltb, ◌==◌, if◌then◌else◌, find, keep, sum, take, length,
}
use antretix.Shared.Constants.{OrderStatus, pending, paid, expired, cancelled, refunded}
use antretix.Shared.Errors.{ErrorCode, Outcome, returned, thrown, failed}
use antretix.Shared.Keys
use antretix.Shared.Policy.{same_status}
use antretix.Redis.{Redis}
use antretix.Database.Schema.{Order, OrderItem, Database}
use antretix.Database.Functions.{done, exception}
use antretix.Database.Settlement.{ReleaseReason, pay_order}
use antretix.Core.Context.{World}
use antretix.Core.Orders.{record_stat}
use antretix.Core.Queue.{leave_queue}
use antretix.Core.Releases.{release_order}

pub data PaymentStatus : Type 0 where
  settlement failure : PaymentStatus

pub record PaymentWebhookPayload : Type 0 where
  pub order_id : ℕ
  pub transaction_id : ℕ
  pub status : PaymentStatus
  pub amount : ℕ
  pub timestamp : ℕ

-- The bytes of two buffers of one length are compared by timingSafeEqual.
unfoldable pub same_bytes : List ℕ → List ℕ → Bool
same_bytes [] [] = true
same_bytes (b ∷ bs) (c ∷ cs) = (b == c) && same_bytes bs cs
same_bytes _ _ = false

-- The HMAC-SHA256 of a secret and the payload's fields, joined by colons, in bytes.
module _ (hmac : ℕ → PaymentWebhookPayload → List ℕ) where
  abbrev pub sign_payment : PaymentWebhookPayload → ℕ → List ℕ
  sign_payment payload secret = hmac secret payload

  -- `signature` is what Buffer.from reads of the hexadecimal text. SIGNATURE_MAX_AGE_MS is 300000.
  unfoldable pub verify_payment_signature : PaymentWebhookPayload → List ℕ → ℕ → ℕ → Bool
  unfolding same_bytes
  verify_payment_signature payload signature secret now =
      if ltb 300000 (now - payload.timestamp + (payload.timestamp - now))
      then false
      else (length (sign_payment payload secret) == length signature)
        && same_bytes (sign_payment payload secret) signature

-- mockPaymentPayload: the id and the time are drawn.
unfoldable pub mock_payment_payload : ℕ → ℕ → Bool → ℕ → ℕ → PaymentWebhookPayload
mock_payment_payload order amount success transaction now = record {
  order_id = order;
  transaction_id = transaction;
  status = if success then PaymentStatus.settlement else PaymentStatus.failure;
  amount = amount;
  timestamp = now;
}

pub data PaymentOutcome : Type 0 where
  paid_now already_paid refunded_now cancelled_now ignored : PaymentOutcome

-- updateMany: WHERE id = … AND status = …
abbrev pub is_refundable : Order → Order → Bool
is_refundable o p = (p.id == o.id) && same_status p.status o.status

abbrev pub set_refunded : Order → ℕ → ℕ → Order → Order
set_refunded o ref now p =
    if is_refundable o p
    then record p { status = refunded; refunded_at = some now; payment_ref = some ref }
    else p

unfoldable pub ticket_count : Database → ℕ → ℕ
ticket_count db order = sum (map (λ i. i.qty) (keep (λ i. i.order_id == order) db.items))

unfoldable cancel_reply : Outcome Bool → Outcome PaymentOutcome
cancel_reply (returned true) = returned cancelled_now
cancel_reply (returned false) = returned ignored
cancel_reply (thrown code) = thrown code
cancel_reply failed = failed

module _ (R : Redis) where
  unfoldable pub refund :
      World R → Order → PaymentWebhookPayload → ℕ → Outcome PaymentOutcome × World R
  refund w o payload now =
      let count = length (keep (is_refundable o) w.db.orders) in
      (
        returned (if count == 1 then refunded_now else ignored),
        record w {
          db = record w.db { orders = map (set_refunded o payload.transaction_id now) w.db.orders };
        },
      )

  -- What follows a payment that PostgreSQL has taken.
  unfoldable pub settle_payment : World R → Order → ℕ → World R
  settle_payment w o now =
      let s = record_stat R w.redis (Keys.paid_stats o.event_id) o.id now in
      record w { redis = leave_queue R s o.event_id o.user_id }

module _ (R : Redis) (others : ℕ → ℕ → World R → World R) where
  -- Each round draws its own codes. `none` says that the rounds were too few.
  unfoldable pub handle_payment_notification :
      ℕ
      → World R
      → PaymentWebhookPayload
      → (ℕ → List ℕ)
      → ℕ
      → Option (Outcome PaymentOutcome × World R)
  unfolding refund settle_payment cancel_reply
  handle_payment_notification zero w payload codes now = none
  handle_payment_notification (suc rounds) w payload codes now =
      elim (find (λ o. o.id == payload.order_id) w.db.orders) [
        | none ↦ some (thrown ErrorCode.not_found, w)
        | some o ↦
            let w1 = others rounds 0 w in
            let (released, w2) = release_order R w1 o.id ReleaseReason.cancelled now in
            let drawn = take (ticket_count w.db o.id) (codes rounds) in
            elim payload.status [
              | PaymentStatus.failure ↦ some (cancel_reply released, w2)
              | PaymentStatus.settlement ↦
                  if not (payload.amount == o.total_price)
                  then some (thrown ErrorCode.validation_error, w)
                  else if same_status o.status paid
                  then some (returned already_paid, w)
                  else if same_status o.status expired || same_status o.status cancelled
                  then some (refund R w1 o payload now)
                  else if not (same_status o.status pending)
                  then some (returned ignored, w)
                  else elim (pay_order w1.db o.id payload.transaction_id drawn now) [
                    | exception ↦ some (failed, w1)
                    | done true db ↦ some (
                      returned paid_now,
                      settle_payment R (others rounds 1 (record w1 { db = db })) o now,
                    )
                    | done false db ↦
                        handle_payment_notification rounds (others rounds 1 (record w1 { db = db }))
                          payload codes now
                  ]
            ]
      ]
