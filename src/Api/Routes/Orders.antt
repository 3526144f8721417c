-- ===== src/Api/Routes/Orders.antt =====
-- apps/api/src/routes/orders.ts: ordering, looking at orders, cancelling and the payment webhook.
-- The metrics, the log and the delivery of the mock provider's own webhook are left out.
pub mod Gate
use antretix.Common.{
  ℕ, Bool, true, false, not, ◌&&◌, ◌||◌, Option, none, some, List, ◌==◌, if◌then◌else◌,
}
use antretix.Shared.Constants.{OrderStatus, pending}
use antretix.Shared.Errors.{
  Outcome, returned, thrown, failed, parsed, not_found, conflict, unauthorized, validation_error,
  ◌>>=◌,
}
use antretix.Shared.Policy.{same_status}
use antretix.Redis.{Redis}
use antretix.Database.Schema.{Database}
use antretix.Database.Settlement.{ReleaseReason}
use antretix.Core.Context.{CoreSettings, World}
use antretix.Core.Events.{EventMeta}
use antretix.Core.OrderViews.{OrderView, get_order_view, list_user_orders}
use antretix.Core.Orders.{CreateOrderRequest, CreateOrderResult, Draw, create_order}
use antretix.Core.Payments.{
  PaymentOutcome, PaymentWebhookPayload, mock_payment_payload, sign_payment,
  verify_payment_signature, handle_payment_notification,
}
use antretix.Core.Releases.{release_order}
use antretix.Api.Auth.{AuthUser, Role, Jwt, TokenHeader, require_user, require_queue_token}
use antretix.Api.Routes.{require_event}

-- createOrderSchema
pub record CreateOrderInput : Type 0 where
  pub category_id : ℕ
  pub qty : ℕ

-- A request to order: what the schemas make of the parameter, the headers and the body.
pub record OrderRequest (T : Type 0) : Type 0 where
  pub event_id : Option ℕ
  pub auth_user : Option AuthUser
  pub queue_token : TokenHeader T
  pub idempotency_key : Option ℕ
  pub input : Option CreateOrderInput

module _ (J : Jwt) where
  open J use {Token}

  -- The guards of POST /events/:id/orders, in their order.
  unfoldable pub check_order :
      ℕ → (ℕ → Option EventMeta) → OrderRequest Token → ℕ → Outcome CreateOrderRequest
  check_order key events request now = do
    event_id ← parsed request.event_id
    user ← require_user request.auth_user
    claims ← require_queue_token J key now request.queue_token event_id user.sub
    idempotency_key ← parsed request.idempotency_key
    input ← parsed request.input
    meta ← require_event events event_id
    returned (record {
      meta = meta;
      user_id = user.sub;
      category_id = input.category_id;
      qty = input.qty;
      idempotency_key = idempotency_key;
    })

  module _ (R : Redis) (others : ℕ → World R → World R) where
    unfoldable pub post_order :
        ℕ
        → (ℕ → Option EventMeta)
        → World R
        → CoreSettings
        → OrderRequest Token
        → Draw
        → ℕ
        → Outcome CreateOrderResult × World R
    unfolding check_order
    post_order key events w settings request draw now = elim (check_order key events request now) [
      | returned order ↦ create_order R others w settings order draw now
      | thrown e ↦ (thrown e, w)
      | failed ↦ (failed, w)
    ]

abbrev is_admin : Role → Bool
is_admin Role.admin = true
is_admin Role.customer = false

-- ownedOrder: the order of another account is not found, except by an administrator.
unfoldable pub owned_order : Database → Option ℕ → AuthUser → ℕ → Outcome OrderView
owned_order db order_id user now = do
  id ← parsed order_id
  elim (get_order_view db id now) [
    | none ↦ thrown not_found
    | some (view, owner) ↦
        if not (owner == user.sub) && not (is_admin user.role)
        then thrown not_found
        else returned view
  ]

-- GET /orders/:id
unfoldable pub get_order : Database → Option AuthUser → Option ℕ → ℕ → Outcome OrderView
unfolding owned_order
get_order db auth_user order_id now = do
  user ← require_user auth_user
  owned_order db order_id user now

-- GET /me/orders
unfoldable pub get_my_orders : Database → Option AuthUser → ℕ → Outcome (List OrderView)
get_my_orders db auth_user now = do
  user ← require_user auth_user
  returned (list_user_orders db user.sub now)

only_pending : OrderView → Outcome OrderView
only_pending view = if same_status view.status pending then returned view else thrown conflict

-- The order that a request may cancel or pay.
unfoldable pub pending_order : Database → Option AuthUser → Option ℕ → ℕ → Outcome OrderView
unfolding get_order only_pending
pending_order db auth_user order_id now = do
  view ← get_order db auth_user order_id now
  only_pending view

module _ (R : Redis) where
  -- POST /orders/:id/cancel
  unfoldable pub cancel_order : World R → Option AuthUser → Option ℕ → ℕ → Outcome Unit × World R
  unfolding pending_order
  cancel_order w auth_user order_id now = elim (pending_order w.db auth_user order_id now) [
    | returned view ↦
        let (outcome, w1) = release_order R w view.id ReleaseReason.cancelled now in
        (outcome >>= (λ released. returned tt), w1)
    | thrown e ↦ (thrown e, w)
    | failed ↦ (failed, w)
  ]

-- POST /orders/:id/pay: what the mock provider will send, signed.
unfoldable pub pay_order :
    (ℕ → PaymentWebhookPayload → List ℕ)
    → Database
    → ℕ
    → Option AuthUser
    → Option ℕ
    → Option Bool
    → ℕ
    → ℕ
    → Outcome (PaymentWebhookPayload × List ℕ)
unfolding get_order only_pending
pay_order hmac db secret auth_user order_id success transaction now = do
  view ← get_order db auth_user order_id now
  paid ← parsed success
  pending_view ← only_pending view
  let payload = mock_payment_payload view.id view.total_price paid transaction now
  returned (payload, sign_payment hmac payload secret)

module _ (R : Redis) (others : ℕ → ℕ → World R → World R) where
  -- POST /payments/webhook, with the bound on the rounds of the notification.
  unfoldable pub payment_webhook :
      (ℕ → PaymentWebhookPayload → List ℕ)
      → ℕ
      → ℕ
      → World R
      → Option (PaymentWebhookPayload × List ℕ)
      → (ℕ → List ℕ)
      → ℕ
      → Option (Outcome PaymentOutcome × World R)
  payment_webhook hmac secret rounds w none codes now = some (thrown validation_error, w)
  payment_webhook hmac secret rounds w (some (payload, signature)) codes now =
      if verify_payment_signature hmac payload signature secret now
      then handle_payment_notification R others rounds w payload codes now
      else some (thrown unauthorized, w)
