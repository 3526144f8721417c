-- ===== src/Api/Protection.antt =====
-- apps/api/src/protection.ts: the rate limit of a request and the verification against bots.
pub mod Limits
pub mod Examples
use antretix.Common.{
  ℕ, zero, suc, ◌+◌, ◌/◌, Bool, true, false, Option, none, some, List, [], ◌∷◌, ◌++◌, map,
  if◌then◌else◌,
}
use antretix.Shared.Errors.{Outcome, returned, thrown, turnstile_failed}
use antretix.Shared.Keys
use antretix.Redis.{Redis, id}
use antretix.Lua.RateLimit.{RateLimitCheck, rate_limit}

abbrev pub window_ms : ℕ
window_ms = 60000

-- The first word of a rule's key.
pub data Scope : Type 0 where
  ip join_ip join_user status checkout : Scope

pub record RateLimitRule : Type 0 where
  pub scope : Scope
  pub id : ℕ
  pub limit_per_minute : ℕ

pub record RateLimitLimits : Type 0 where
  pub global_ip_per_min : ℕ
  pub join_per_min : ℕ
  pub status_per_min : ℕ
  pub checkout_per_min : ℕ

-- Method and route; the handlers that have a rule of their own, and all others.
pub data Route : Type 0 where
  post_queue get_queue_status get_queue_stream post_orders other : Route

abbrev pub rule_of : Scope → ℕ → ℕ → RateLimitRule
rule_of scope subject limit = record { scope = scope; id = subject; limit_per_minute = limit }

-- A rule for a user, if one is logged in.
abbrev for_user : Scope → Option ℕ → ℕ → List RateLimitRule
for_user scope none limit = []
for_user scope (some user) limit = rule_of scope user limit ∷ []

route_rules : RateLimitLimits → Route → ℕ → Option ℕ → List RateLimitRule
route_rules limits Route.post_queue address user =
    rule_of Scope.join_ip address limits.join_per_min
    ∷ for_user Scope.join_user user limits.join_per_min
route_rules limits Route.get_queue_status address user =
    for_user Scope.status user limits.status_per_min
route_rules limits Route.get_queue_stream address user =
    for_user Scope.status user limits.status_per_min
route_rules limits Route.post_orders address user =
    for_user Scope.checkout user limits.checkout_per_min
route_rules limits Route.other address user = []

unfoldable pub rate_limit_rules_for : RateLimitLimits → Route → ℕ → Option ℕ → List RateLimitRule
unfolding route_rules
rate_limit_rules_for limits route address user =
    rule_of Scope.ip address limits.global_ip_per_min ∷ route_rules limits route address user

abbrev scope_word : Scope → ℕ
scope_word Scope.ip = 0
scope_word Scope.join_ip = 1
scope_word Scope.join_user = 2
scope_word Scope.status = 3
scope_word Scope.checkout = 4

abbrev pub check_of : RateLimitRule → RateLimitCheck
check_of rule = record {
  key = Keys.rate_limit (scope_word rule.scope) rule.id;
  window_ms = window_ms;
  limit = rule.limit_per_minute;
}

-- rules[blockedIndex], where the script counts from 1 and 0 is no rule.
abbrev pub rule_at : List RateLimitRule → ℕ → Option RateLimitRule
rule_at rules zero = none
rule_at [] (suc n) = none
rule_at (r ∷ rules) (suc zero) = some r
rule_at (r ∷ rules) (suc (suc n)) = rule_at rules (suc n)

-- The error RATE_LIMITED: whose rule it was, and the header Retry-After in seconds.
pub record RateLimited : Type 0 where
  pub rule : RateLimitRule
  pub retry_after : ℕ

abbrev pub rate_limited_by : Option RateLimitRule → ℕ → Option RateLimited
rate_limited_by none retry_ms = none
rate_limited_by (some rule) retry_ms =
    some (record { rule = rule; retry_after = (retry_ms + 999) / 1000 })

module _ (R : Redis) where
  open R use {Store}

  -- The error that is thrown, if one is.
  unfoldable pub enforce_rate_limits :
      Store → List RateLimitRule → ℕ → ℕ → Option RateLimited × Store
  enforce_rate_limits s rules now request_id =
      let (reply, s1) = rate_limit R s (map check_of rules) now (id request_id) in
      (rate_limited_by (rule_at rules reply.blocked) reply.retry, s1)

pub record TurnstileConfig : Type 0 where
  pub secret : ℕ
  pub bypass : Bool

-- The token that a client sent, which may be the empty text.
pub data TurnstileToken : Type 0 where
  missing empty : TurnstileToken
  given : ℕ → TurnstileToken

abbrev judge_siteverify : Option Bool → Outcome Unit
judge_siteverify none = thrown turnstile_failed
judge_siteverify (some true) = returned tt
judge_siteverify (some false) = thrown turnstile_failed

-- `siteverify` is the answer of the service to secret, token and address: nothing if it does not
-- come or cannot be read.
unfoldable pub verify_turnstile :
    (ℕ → ℕ → ℕ → Option Bool) → TurnstileConfig → TurnstileToken → ℕ → Outcome Unit
verify_turnstile siteverify config TurnstileToken.missing address =
    if config.bypass then returned tt else thrown turnstile_failed
verify_turnstile siteverify config TurnstileToken.empty address =
    if config.bypass then returned tt else thrown turnstile_failed
verify_turnstile siteverify config (TurnstileToken.given token) address =
    if config.bypass then returned tt else judge_siteverify (siteverify config.secret token address)
