-- ===== src/Api/Routes/Orders/Gate.antt =====
-- orders.ts: nobody orders without having been let in.
use antretix.Common.{
  arith, ◌*◌, ◌/◌, ltb, ◌==◌, ◌&&◌, if◌then◌else◌, Bool-cases, ℕ, ◌≡◌, ◌⊎◌, refl, ◌∙◌, ap, subst,
  ◌≢◌, Option, none, some, inl, inr,
}
use antretix.Shared.Errors.{Outcome, returned, thrown, failed, parsed, queue_token_required, ◌>>=◌}
use antretix.Common.Int.{pos}
use antretix.Shared.Double.{Double}
use antretix.Redis.{Redis}
use antretix.Core.Context.{CoreSettings, World}
use antretix.Core.Events.{EventMeta}
use antretix.Core.Orders.{CreateOrderRequest, Draw, create_order}
use antretix.Core.Queue.{QueueTokenClaims, admitted, get_queue_state}
use antretix.Database.Schema.{EventStatus}
use antretix.Api.Auth.{
  AuthUser, Jwt, once, sign_queue_token, queue_token, verify_queue_token, require_user,
  require_queue_token,
}
use antretix.Api.Auth.Tokens.{require_queue_token_iff, admitted_checkout}
use antretix.Api.Routes.{require_event, public_event}
use antretix.Api.Routes.Orders.{CreateOrderInput, OrderRequest, check_order, post_order}

-- A chain that ends with a value has got one at each step.
value_of_step :
    {A B : Type 0} (o : Outcome A) (f : A → Outcome B) (b : B)
    → (o >>= f) ≡ returned b
    → (a : A) × (o ≡ returned a) × (f a ≡ returned b)
value_of_step (returned a) f b h = (a, refl, h)
value_of_step (thrown e) f b h = cc
value_of_step failed f b h = cc

value_of_parsed : {A : Type 0} (o : Option A) (a : A) → parsed o ≡ returned a → o ≡ some a
value_of_parsed none a h = cc
value_of_parsed (some x) a h = cc

value_of_user : (o : Option AuthUser) (u : AuthUser) → require_user o ≡ returned u → o ≡ some u
unfolding require_user
value_of_user none u h = cc
value_of_user (some x) u h = cc

value_eq : {A : Type 0} {a b : A} → returned a ≡ returned b → a ≡ b
value_eq h = cc

value_of_public :
    (meta x : EventMeta) (status : EventStatus)
    → x.event.status ≡ status
    → public_event x status ≡ returned meta
    → (x ≡ meta) × (x.event.status ≢ EventStatus.draft)
value_of_public meta x EventStatus.draft e h = cc
value_of_public meta x EventStatus.scheduled e h = (value_eq h, λ is_draft. cc)
value_of_public meta x EventStatus.on_sale e h = (value_eq h, λ is_draft. cc)
value_of_public meta x EventStatus.sold_out e h = (value_eq h, λ is_draft. cc)
value_of_public meta x EventStatus.ended e h = (value_eq h, λ is_draft. cc)

value_of_event :
    (events : ℕ → Option EventMeta) (event_id : ℕ) (meta : EventMeta)
    → require_event events event_id ≡ returned meta
    → (events event_id ≡ some meta) × (meta.event.status ≢ EventStatus.draft)
value_of_event events event_id meta h = by_meta (events event_id) refl
  where
    by_meta :
        (m : Option EventMeta)
        → events event_id ≡ m
        → (events event_id ≡ some meta) × (meta.event.status ≢ EventStatus.draft)
    by_meta none e = absurd (ground arith)
    by_meta (some x) e =
        let public : public_event x x.event.status ≡ returned meta = rw (require_event, e) at h in
        let (same, no_draft) = value_of_public meta x x.event.status refl public in
        (e ∙ ap some same, subst (λ m. m.event.status ≢ EventStatus.draft) same no_draft)

module _ (J : Jwt) where
  -- Who sent the request, that the token in its header verifies to claims of this account for this
  -- event, that the event is there and no draft, and that the order is the one that was asked for.
  pub record IsLetIn (key now : ℕ) (events : ℕ → Option EventMeta)
      (request : OrderRequest (Jwt.Token J)) (order : CreateOrderRequest) : Type 0 where
    pub event_id : ℕ
    pub user : AuthUser
    pub token : Jwt.Token J
    pub claims : QueueTokenClaims
    pub input : CreateOrderInput
    pub for_event : request.event_id ≡ some event_id
    pub logged_in : request.auth_user ≡ some user
    pub has_token : queue_token request.queue_token ≡ some token
    pub verified : verify_queue_token J key now token ≡ some claims
    pub own_event : claims.event_id ≡ event_id
    pub own_account : claims.user_id ≡ user.sub
    pub asked : request.input ≡ some input
    pub keyed : request.idempotency_key ≡ some order.idempotency_key
    pub on_sale : events event_id ≡ some order.meta
    pub no_draft : order.meta.event.status ≢ EventStatus.draft
    pub account : order.user_id ≡ user.sub
    pub category : order.category_id ≡ input.category_id
    pub quantity : order.qty ≡ input.qty

  check_order-IsLetIn :
      (key now : ℕ) (events : ℕ → Option EventMeta) (request : OrderRequest (Jwt.Token J))
      (order : CreateOrderRequest)
      → check_order J key events request now ≡ returned order
      → IsLetIn key now events request order
  unfolding check_order
  check_order-IsLetIn key now events request order passed =
      let (event_id, has_id, rest1) = value_of_step (parsed request.event_id) _ order passed in
      let (user, has_user, rest2) = value_of_step (require_user request.auth_user) _ order rest1 in
      let (claims, allowed, rest3) =
        value_of_step (require_queue_token J key now request.queue_token event_id user.sub) _ order
          rest2 in
      let (idempotency_key, has_key, rest4) =
        value_of_step (parsed request.idempotency_key) _ order rest3 in
      let (input, has_input, rest5) = value_of_step (parsed request.input) _ order rest4 in
      let (meta, has_meta, rest6) = value_of_step (require_event events event_id) _ order rest5 in
      let (token, has_token, verified, own_event, own_account) =
        (require_queue_token_iff J key now request.queue_token event_id user.sub claims).0
          allowed in
      let (there, no_draft) = value_of_event events event_id meta has_meta in
      subst (IsLetIn key now events request) (value_eq rest6) (record {
        event_id = event_id;
        user = user;
        token = token;
        claims = claims;
        input = input;
        for_event = value_of_parsed request.event_id event_id has_id;
        logged_in = value_of_user request.auth_user user has_user;
        has_token = has_token;
        verified = verified;
        own_event = own_event;
        own_account = own_account;
        asked = value_of_parsed request.input input has_input;
        keyed = value_of_parsed request.idempotency_key idempotency_key has_key;
        on_sale = there;
        no_draft = no_draft;
        account = refl;
        category = refl;
        quantity = refl;
      })

  -- A request to order, whatever else it says and whatever other requests do meanwhile: it changes
  -- nothing, or it comes from an account that is logged in, its header has a token that verifies to
  -- claims of this account for this event, which is there and no draft, and what happens is
  -- createOrder for this account and event, with the category, the quantity and the idempotency key
  -- that the request names.
  pub post_order_gate :
      (R : Redis) (others : ℕ → World R → World R) (key now : ℕ) (events : ℕ → Option EventMeta)
      (w : World R) (settings : CoreSettings) (request : OrderRequest (Jwt.Token J)) (draw : Draw)
      → let result = post_order J R others key events w settings request draw now in
        (result.1 ≡ w)
        ⊎ ((order : CreateOrderRequest) × IsLetIn key now events request order
            × (result ≡ create_order R others w settings order draw now))
  unfolding post_order
  post_order_gate R others key now events w settings request draw =
      by_check (check_order J key events request now) refl
    where
      by_check :
          (checked : Outcome CreateOrderRequest)
          → check_order J key events request now ≡ checked
          → let result = post_order J R others key events w settings request draw now in
            (result.1 ≡ w)
            ⊎ ((order : CreateOrderRequest) × IsLetIn key now events request order
                × (result ≡ create_order R others w settings order draw now))
      by_check (returned order) passed = inr (
        order,
        check_order-IsLetIn key now events request order passed,
        rw (post_order, passed) refl,
      )
      by_check (thrown e) refused = inl (rw (post_order, refused) refl)
      by_check failed refused = inl (rw (post_order, refused) refl)

  -- A user who is told to be admitted sends a request to order with the token, logged in as some
  -- account and for some event that is there, at any time but the end of the session rounded down
  -- to a whole second, whatever other requests do meanwhile. Before that time, for the event of the
  -- session and from the account that was admitted, what happens is createOrder for just what the
  -- request asks for; otherwise it is refused with QUEUE_TOKEN_REQUIRED and changes nothing.
  pub admitted_order :
      (D : Double) (R : Redis) (others : ℕ → World R → World R) (s : Redis.Store R)
      (meta asked : EventMeta) (user now ends key later event_id idempotency_key : ℕ)
      (token : Jwt.Token J) (account : AuthUser) (input : CreateOrderInput)
      (events : ℕ → Option EventMeta) (w : World R) (settings : CoreSettings) (draw : Draw)
      → (get_queue_state D R (sign_queue_token J key) s meta user now).0 ≡ admitted token (pos ends)
      → later ≢ ends / 1000 * 1000
      → require_event events event_id ≡ returned asked
      → let request : OrderRequest (Jwt.Token J) = record {
        event_id = some event_id;
        auth_user = some account;
        queue_token = once token;
        idempotency_key = some idempotency_key;
        input = some input;
      } in
        post_order J R others key events w settings request draw later ≡ (
          if ltb later (ends / 1000 * 1000) && (meta.event.id == event_id) && (user == account.sub)
          then create_order R others w settings
              (record {
                meta = asked;
                user_id = account.sub;
                category_id = input.category_id;
                qty = input.qty;
                idempotency_key = idempotency_key;
              })
              draw
              later
          else (thrown queue_token_required, w))
  unfolding post_order check_order require_user
  admitted_order D R others s meta asked user now ends key later event_id idempotency_key token
        account input events w settings draw told apart there =
      let token_check =
        admitted_checkout J D R s meta user now ends key later event_id account.sub token told
          apart in
      elim (Bool-cases
        (ltb later (ends / 1000 * 1000) && (meta.event.id == event_id) && (user == account.sub))) [
          | inl right ↦
              let passed = rw right at token_check in
              rw (post_order, check_order, passed, there, right) refl
          | inr wrong ↦
              let refused = rw wrong at token_check in
              rw (post_order, check_order, refused, wrong) refl
        ]
