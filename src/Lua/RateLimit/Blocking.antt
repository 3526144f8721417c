-- ===== src/Lua/RateLimit/Blocking.antt =====
-- The rule that a reply of ratelimit.lua names is one of the request's.
use antretix.Common.{ℕ, suc, ◌+◌, ◌≤◌, ◌<◌, List, [], ◌∷◌, arith, length}
use antretix.Redis.{Redis, Entry, Member}
use antretix.Lua.RateLimit.{
  RateLimitCheck, RateLimitReply, rate_limit, scan, slide, judge, no_block,
}

judge_range :
    (i now : ℕ) (r : RateLimitCheck) (es : List Entry) (reply : RateLimitReply)
    → reply.blocked ≤ i
    → (judge i now r es reply).blocked ≤ i
unfolding judge
judge_range i now r es reply h = ground arith

module _ (R : Redis) where
  open R use {Store, slot}

  scan_range :
      (s : Store) (now i : ℕ) (rules : List RateLimitCheck) (reply : RateLimitReply)
      → reply.blocked < i
      → (scan R s now i rules reply).0.blocked < i + length rules
  unfolding scan
  scan_range s now i [] reply h = omega (arith, h)
  scan_range s now i (r ∷ rules) reply h =
      let s1 = slide R s now r in
      let range = judge_range i now r (slot s1 r.key).zset reply (omega (arith, h)) in
      omega (
        arith,
        scan_range s1 now (suc i) rules (judge i now r (slot s1 r.key).zset reply)
            (omega (arith, range)),
      )

  -- A reply names no rule, or one of the rules by its number from 1.
  pub rate_limit_range :
      (s : Store) (rules : List RateLimitCheck) (now : ℕ) (m : Member)
      → (rate_limit R s rules now m).0.blocked ≤ length rules
  unfolding rate_limit
  rate_limit_range s rules now m = ground (arith, scan_range s now 1 rules no_block (omega arith))
