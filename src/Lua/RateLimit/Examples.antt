-- ===== src/Lua/RateLimit/Examples.antt =====
-- The rate limit on a store in memory, and its theorem at a concrete input.
use antretix.Common.{ℕ, ◌≡◌, refl, [], ◌∷◌, if◌then◌else◌}
use antretix.Shared.Keys
use antretix.Shared.Keys.{key_eq}
use antretix.Redis.{Entry, tick, vacant}
use antretix.Redis.Memory.{Table, memory}
use antretix.Lua.RateLimit.{RateLimitCheck, rate_limit}

abbrev per_ip : RateLimitCheck
per_ip = record { key = Keys.rate_limit 1 7; window_ms = 1000; limit = 2 }

abbrev per_user : RateLimitCheck
per_user = record { key = Keys.rate_limit 2 9; window_ms = 5000; limit = 9 }

abbrev request : ℕ → Entry
request t = record { member = tick t 0; score = t }

-- Two requests of the address, one of which is older than a second.
abbrev table : Table
table k =
    if key_eq per_ip.key k
    then record vacant { zset = request 8000 ∷ request 9500 ∷ [] }
    else vacant

rate_limit-second :
    (rate_limit memory table (per_ip ∷ per_user ∷ []) 9700 (tick 9700 1)).0.blocked ≡ 0
unfolding rate_limit
rate_limit-second = refl

rate_limit-third :
    (rate_limit memory table (per_ip ∷ per_user ∷ []) 8900 (tick 8900 1)).0.blocked ≡ 1
unfolding rate_limit
rate_limit-third = refl
