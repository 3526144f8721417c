-- ===== src/Api/Protection/Examples.antt =====
-- The rate limit on a store in memory, and its theorem at a concrete input.
use antretix.Common.{◌≡◌, ◌⊎◌, refl, some, map}
use antretix.Redis.{id, vacant}
use antretix.Redis.Memory.{Table, memory}
use antretix.Lua.RateLimit.{rate_limit}
use antretix.Api.Protection.{
  RateLimitLimits, Route, Scope, rule_of, rate_limit_rules_for, check_of, enforce_rate_limits,
}
use antretix.Api.Protection.Limits.{GoesOn, IsRefused, enforce_rate_limits_result}

abbrev limits : RateLimitLimits
limits = record {
  global_ip_per_min = 120;
  join_per_min = 1;
  status_per_min = 30;
  checkout_per_min = 10;
}

abbrev empty : Table
empty k = vacant

-- The second join of account 7 within the minute, from another address.
enforce_rate_limits-again :
    let once =
      (enforce_rate_limits memory empty
        (rate_limit_rules_for limits Route.post_queue 3 (some 7))
        70000
        1).1 in
    (enforce_rate_limits memory once
      (rate_limit_rules_for limits Route.post_queue 4 (some 7))
      90500
      2).0
    ≡ some (record { rule = rule_of Scope.join_user 7 1; retry_after = 40 })
unfolding enforce_rate_limits rate_limit_rules_for rate_limit
enforce_rate_limits-again = refl

enforce_rate_limits_result_example :
    let rules = rate_limit_rules_for limits Route.post_queue 3 (some 7) in
    let checks = map check_of rules in
    let result = enforce_rate_limits memory empty rules 70000 1 in
    GoesOn memory empty checks 70000 (id 1) result ⊎ IsRefused memory empty checks 70000 result
enforce_rate_limits_result_example =
    enforce_rate_limits_result memory empty limits Route.post_queue 3 (some 7) 70000 1
