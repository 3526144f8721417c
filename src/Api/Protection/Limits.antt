-- ===== src/Api/Protection/Limits.antt =====
-- protection.ts: what the rate limit lets through.
use antretix.Common.{
  ℕ, zero, suc, ◌+◌, ◌/◌, ◌≤◌, ◌≡◌, ◌⊎◌, inl, inr, refl, Option, none, some, List, [], ◌∷◌, map,
  arith, All, length,
}
use antretix.Redis.{Redis, Member, id, zadd_entries}
use antretix.Lua.RateLimit.{RateLimitCheck, rate_limit}
use antretix.Lua.RateLimit.Window.{DistinctKeys, HasRoom, in_window, log_of, rate_limit_result}
use antretix.Lua.RateLimit.Blocking.{rate_limit_range}
use antretix.Api.Protection.{
  RateLimitRule, RateLimitLimits, RateLimited, Route, rate_limit_rules_for, route_rules, check_of,
  rule_at, enforce_rate_limits,
}

-- The rules of a request have different keys.
rate_limit_rules_for-DistinctKeys :
    (limits : RateLimitLimits) (route : Route) (ip : ℕ) (user : Option ℕ)
    → DistinctKeys (map check_of (rate_limit_rules_for limits route ip user))
unfolding rate_limit_rules_for route_rules
rate_limit_rules_for-DistinctKeys limits Route.post_queue ip none = ground arith
rate_limit_rules_for-DistinctKeys limits Route.post_queue ip (some u) = ground arith
rate_limit_rules_for-DistinctKeys limits Route.get_queue_status ip none = ground arith
rate_limit_rules_for-DistinctKeys limits Route.get_queue_status ip (some u) = ground arith
rate_limit_rules_for-DistinctKeys limits Route.get_queue_stream ip none = ground arith
rate_limit_rules_for-DistinctKeys limits Route.get_queue_stream ip (some u) = ground arith
rate_limit_rules_for-DistinctKeys limits Route.post_orders ip none = ground arith
rate_limit_rules_for-DistinctKeys limits Route.post_orders ip (some u) = ground arith
rate_limit_rules_for-DistinctKeys limits Route.other ip user = ground arith

-- A number from 1 to the number of rules names one.
rule_at_range :
    (rules : List RateLimitRule) (n : ℕ)
    → 1 ≤ n
    → n ≤ length (map check_of rules)
    → (r : RateLimitRule) × (rule_at rules n ≡ some r)
rule_at_range rules zero low high = absurd (omega (arith, low))
rule_at_range [] (suc n) low high = absurd (omega (arith, high))
rule_at_range (r ∷ rules) (suc zero) low high = (r, refl)
rule_at_range (r ∷ rules) (suc (suc n)) low high =
    rule_at_range rules (suc n) (omega arith) (omega (arith, high))

module _ (R : Redis) where
  open R use {Store, tie}

  -- The request goes on, and every log has it.
  abbrev pub GoesOn : Store → List RateLimitCheck → ℕ → Member → Option RateLimited × Store → Type 0
  GoesOn s checks now m (error, s') =
      (error ≡ none)
      × All (HasRoom R s now) checks
      × All (λ r. log_of R s' r ≡ zadd_entries tie now m (in_window now r (log_of R s r))) checks

  -- The request is refused for at least a second, since a rule is used up, and no log has it.
  abbrev pub IsRefused : Store → List RateLimitCheck → ℕ → Option RateLimited × Store → Type 0
  IsRefused s checks now (error, s') =
      ((b : RateLimited) × (error ≡ some b) × (1 ≤ b.retry_after))
      × (¬ All (HasRoom R s now) checks)
      × All (λ r. log_of R s' r ≡ in_window now r (log_of R s r)) checks

  -- The rate limit of a request by its route, address and user, whoever they are: either every rule
  -- of the request has room in its minute, and then the request goes on and stands in the log of
  -- each; or a rule has none, and then the request is refused with a Retry-After of at least one
  -- second, and no log gains an entry.
  pub enforce_rate_limits_result :
      (s : Store) (limits : RateLimitLimits) (route : Route) (address : ℕ) (user : Option ℕ)
      (now request_id : ℕ)
      → let rules = rate_limit_rules_for limits route address user in
        let checks = map check_of rules in
        let result = enforce_rate_limits R s rules now request_id in
        GoesOn s checks now (id request_id) result ⊎ IsRefused s checks now result
  unfolding enforce_rate_limits
  enforce_rate_limits_result s limits route address user now request_id =
      let rules = rate_limit_rules_for limits route address user in
      let checks = map check_of rules in
      let distinct = rate_limit_rules_for-DistinctKeys limits route address user in
      elim (rate_limit_result R s checks now (id request_id) distinct) [
        | inl (free, room, noted) ↦ inl (rw free refl, room, noted)
        | inr (low, wait, full, slid) ↦
            let (rule, named) =
              rule_at_range rules _ low (rate_limit_range R s checks now (id request_id)) in
            let retry = ((rate_limit R s checks now (id request_id)).0.retry + 999) / 1000 in
            inr (
              (record { rule = rule; retry_after = retry }, rw named refl, omega (arith, wait)),
              full,
              slid,
            )
      ]
