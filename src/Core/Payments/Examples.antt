-- ===== src/Core/Payments/Examples.antt =====
-- A payment that comes after the order has run out, and the theorems at concrete inputs.
use antretix.Common.{ℕ, ◌+◌, ◌≡◌, none, some, List, [], ◌∷◌, refl, false}
use antretix.Shared.Constants.{expired, pending}
use antretix.Shared.Errors.{Outcome, returned}
use antretix.Redis.{vacant}
use antretix.Redis.Memory.{memory}
use antretix.Database.Schema.{Order}
use antretix.Core.Context.{World}
use antretix.Core.Payments.{
  paid_now, already_paid, settle_payment, PaymentStatus, PaymentWebhookPayload, PaymentOutcome,
  verify_payment_signature, handle_payment_notification,
}
use antretix.Database.Consistency.Settling.{paid_database}
use antretix.Core.Payments.Replay.{payment_replay}
use antretix.Core.Payments.Notifications.{
  handle_payment_notification_total, release_order-StaysSettled,
}
use antretix.Core.Releases.{release_order}
use antretix.Database.Settlement.{ReleaseReason}

abbrev payload : PaymentWebhookPayload
payload = record {
  order_id = 1;
  transaction_id = 77;
  status = PaymentStatus.settlement;
  amount = 200;
  timestamp = 1000;
}

abbrev late : Order
late = record {
  id = 1;
  code = 1;
  user_id = 11;
  event_id = 1;
  status = expired;
  total_price = 200;
  expires_at = 600;
  idempotency_key = (11, 1);
  payment_ref = none;
  paid_at = none;
  refunded_at = none;
  created_at = 0;
}

abbrev world : World memory
world = record {
  redis = λ k. vacant;
  db = record { events = []; categories = []; orders = late ∷ []; items = []; tickets = [] };
}

abbrev hmac : ℕ → PaymentWebhookPayload → List ℕ
hmac secret p = (secret + p.amount) ∷ p.timestamp ∷ []

-- The same order while it is PENDING, with its item of two tickets.
abbrev waiting : World memory
waiting = record {
  redis = λ k. vacant;
  db = record {
    events = [];
    categories =
        record {
          id = 7;
          event_id = 1;
          name = 70;
          price = 100;
          quota = 5;
          sold = 0;
          reserved = 2;
          sort_order = 0;
        }
        ∷ [];
    orders = record late { status = pending } ∷ [];
    items = record { id = 1; order_id = 1; category_id = 7; qty = 2; unit_price = 100 } ∷ [];
    tickets = [];
  };
}

-- The expiry job releases the order while its payment comes in.
abbrev expiry_job : ℕ → ℕ → World memory → World memory
expiry_job n m v = (release_order memory v 1 ReleaseReason.expired 700).1

handle_payment_notification_total_example :
    (answer : Outcome PaymentOutcome × World memory) × (handle_payment_notification memory
        expiry_job 2 waiting payload
        (λ n. [])
        700
      ≡ some answer)
handle_payment_notification_total_example =
    handle_payment_notification_total memory expiry_job 0 waiting payload (λ n. []) 700
      (release_order-StaysSettled memory 1 1 700 ReleaseReason.expired)

abbrev codes : ℕ → List ℕ
codes round = 31 ∷ 32 ∷ 33 ∷ []

abbrev paid_world : World memory
paid_world =
    settle_payment memory
      (record waiting {
        db = paid_database waiting.db 1 77 550 (
            record { order_id = 1; category_name = 70; code = 31; checked_in = false }
            ∷ record { order_id = 1; category_name = 70; code = 32; checked_in = false }
            ∷ []);
      })
      (record late { status = pending }) 550

handle_payment_notification-waiting :
    handle_payment_notification memory (λ n m w. w) 1 waiting payload codes 550
    ≡ some (returned paid_now, paid_world)
unfolding handle_payment_notification antretix.Database.Settlement.pay_order
    antretix.Core.Payments.ticket_count
handle_payment_notification-waiting = refl

payment_replay_example :
    handle_payment_notification memory (λ n m w. w) 2 paid_world payload (λ n. []) 800
    ≡ some (returned already_paid, paid_world)
payment_replay_example =
    payment_replay memory (λ n m w. w) 0 1 waiting payload codes (λ n. []) 550 800 paid_world
      handle_payment_notification-waiting
