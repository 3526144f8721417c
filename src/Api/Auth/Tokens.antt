-- ===== src/Api/Auth/Tokens.antt =====
-- auth.ts: who a queue token lets into the checkout.
use antretix.Common.{
  ℕ, ◌*◌, ◌/◌, ◌≡◌, ◌≢◌, refl, sym, ◌∙◌, ap, Option, none, some, arith, ◌==◌, Option-cases, inl,
  inr, subst, ltb, ◌&&◌, Bool-cases, if◌then◌else◌, ◌↔◌,
}
use antretix.Common.Int.{pos}
use antretix.Shared.Errors.{returned, thrown, queue_token_required}
use antretix.Shared.Double.{Double}
use antretix.Redis.{Redis}
use antretix.Core.Events.{EventMeta}
use antretix.Core.Queue.{QueueTokenClaims, admitted, get_queue_state}
use antretix.Core.Queue.Position.{IsTrue, get_queue_state_result}
use antretix.Api.Auth.{
  Jwt, TokenHeader, once, queue_token, queue_payload, sign_queue_token, verify_queue_token,
  require_queue_token, for_checkout,
}

for_checkout_iff :
    (found : Option QueueTokenClaims) (event user : ℕ) (claims : QueueTokenClaims)
    → for_checkout found event user ≡ returned claims
      ↔ ((found ≡ some claims) × (claims.event_id ≡ event) × (claims.user_id ≡ user))
for_checkout_iff none event user claims = (λ g. absurd cc, λ f. absurd cc)
for_checkout_iff (some c) event user claims = (λ g. ground arith, λ f. ground arith)

module _ (J : Jwt) where
  open J use {Token, verify-sign, verify_expired}

  -- With any secret, at any time and however it comes in the header, a request is let into the
  -- checkout of an event for an account exactly when it has a token that verifies to claims for
  -- just this event and this account; then these are the claims.
  pub require_queue_token_iff :
      (key now : ℕ) (header : TokenHeader Token) (event user : ℕ) (claims : QueueTokenClaims)
      → require_queue_token J key now header event user ≡ returned claims ↔ (
          (token : Token) × (queue_token header ≡ some token)
          × (verify_queue_token J key now token ≡ some claims)
          × (claims.event_id ≡ event)
          × (claims.user_id ≡ user))
  unfolding require_queue_token
  require_queue_token_iff key now header event user claims =
      elim (Option-cases (queue_token header)) [
        | inl missing ↦
            rw (require_queue_token, missing) (λ g. absurd cc, λ f. let (t, e, v, a, b) = f in cc)
        | inr (token, there) ↦
            let found = verify_queue_token J key now token in
            let (opens, shuts) = for_checkout_iff found event user claims in
            rw (require_queue_token, there)
              (
                λ g. let (v, a, b) = opens g in (token, refl, v, a, b),
                λ f.
                    let (t, e, v, a, b) = f in
                    let same : t ≡ token = cc in
                    shuts (ap (verify_queue_token J key now) (sym same) ∙ v, a, b),
              )
      ]

  -- A user who is told to be admitted gets a token, with the end of the session in milliseconds.
  -- At any time but that end rounded down to a whole second, a request with the token in its
  -- header, verified with the same secret, is let into the checkout exactly when it comes before
  -- that time, for this event and from this account; otherwise it is refused with
  -- QUEUE_TOKEN_REQUIRED.
  pub admitted_checkout :
      (D : Double) (R : Redis) (s : Redis.Store R) (meta : EventMeta) (user now ends : ℕ)
      (key later event other : ℕ) (token : Token)
      → (get_queue_state D R (sign_queue_token J key) s meta user now).0 ≡ admitted token (pos ends)
      → later ≢ ends / 1000 * 1000
      → require_queue_token J key later (once token) event other ≡ (
          if ltb later (ends / 1000 * 1000) && (meta.event.id == event) && (user == other)
          then returned (record {
            user_id = user;
            event_id = meta.event.id;
            expires_at_ms = pos (ends / 1000 * 1000);
          })
          else thrown queue_token_required)
  unfolding require_queue_token sign_queue_token verify_queue_token
  admitted_checkout D R s meta user now ends key later event other token told apart =
      let own : QueueTokenClaims = record {
        user_id = user;
        event_id = meta.event.id;
        expires_at_ms = pos ends;
      } in
      let truth : IsTrue D R (sign_queue_token J key) s meta user now (admitted token (pos ends)) =
        subst (IsTrue D R (sign_queue_token J key) s meta user now) told
          (get_queue_state_result D R (sign_queue_token J key) s meta user now).0 in
      elim (Bool-cases (ltb later (ends / 1000 * 1000))) [
        | inl before ↦
            rw
              (
                truth.0,
                verify-sign key later (queue_payload own) (ends / 1000) refl (ground arith),
                before,
              )
              (ground arith)
        | inr over ↦
            rw
              (
                truth.0,
                verify_expired key later (queue_payload own) (ends / 1000) refl (ground arith),
                over,
              )
              refl
      ]
