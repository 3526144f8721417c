-- ===== src/Lua/RateLimit.antt =====
-- packages/lua/scripts/ratelimit.lua: a sliding window log for several rules in one call.
pub mod Window
pub mod Blocking
pub mod Examples
use antretix.Common.{ℕ, suc, ◌+◌, ◌-◌, List, [], ◌∷◌, ltb, leb, if◌then◌else◌, length}
use antretix.Shared.Keys.{Key}
use antretix.Redis.{Redis, Entry, Member}

-- RateLimitCheck, with the key written by keys.rateLimit.
pub record RateLimitCheck : Type 0 where
  pub key : Key
  pub window_ms : ℕ
  pub limit : ℕ

-- The reply: which rule blocks, counted from 1, and for how long; 0 if none does.
pub record RateLimitReply : Type 0 where
  pub blocked : ℕ
  pub retry : ℕ

-- Until the oldest entry leaves the window; the whole window if there is none.
unfoldable wait_for : ℕ → ℕ → List Entry → ℕ
wait_for now window [] = window
wait_for now window (oldest ∷ es) = oldest.score + window - now

abbrev at_least_one : ℕ → ℕ
at_least_one wait = if ltb wait 1 then 1 else wait

-- A rule that is used up, the `i`-th, against the longest wait so far.
unfoldable block : ℕ → ℕ → RateLimitReply → RateLimitReply
block i wait r = if ltb r.retry wait then record { blocked = i; retry = wait } else r

abbrev pub no_block : RateLimitReply
no_block = record { blocked = 0; retry = 0 }

-- One rule that has `es` in its window.
unfoldable judge : ℕ → ℕ → RateLimitCheck → List Entry → RateLimitReply → RateLimitReply
unfolding block wait_for
judge i now r es reply =
    if leb r.limit (length es)
    then block i (at_least_one (wait_for now r.window_ms es)) reply
    else reply

module _ (R : Redis) where
  open R use {Store, slot, zadd, pexpire, zremrangebyscore}

  -- ZREMRANGEBYSCORE from -inf to now - window, which may lie before 0.
  unfoldable slide : Store → ℕ → RateLimitCheck → Store
  slide s now r = if ltb now r.window_ms then s else zremrangebyscore s r.key (now - r.window_ms)

  -- The first loop, at its `i`-th rule.
  unfoldable scan : Store → ℕ → ℕ → List RateLimitCheck → RateLimitReply → RateLimitReply × Store
  unfolding slide judge
  scan s now i [] reply = (reply, s)
  scan s now i (r ∷ rs) reply =
      let s1 = slide s now r in scan s1 now (suc i) rs (judge i now r (slot s1 r.key).zset reply)

  -- The second loop.
  unfoldable record_all : Store → ℕ → Member → List RateLimitCheck → Store
  record_all s now m [] = s
  record_all s now m (r ∷ rs) = record_all (pexpire (zadd s r.key now m) r.key r.window_ms) now m rs

  -- ratelimit.lua
  unfoldable pub rate_limit : Store → List RateLimitCheck → ℕ → Member → RateLimitReply × Store
  unfolding scan record_all
  rate_limit s rules now m =
      let (reply, s1) = scan s now 1 rules no_block in
      if ltb 0 reply.blocked then (reply, s1) else (no_block, record_all s1 now m rules)
