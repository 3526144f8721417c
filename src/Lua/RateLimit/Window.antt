-- ===== src/Lua/RateLimit/Window.antt =====
-- What a call of ratelimit.lua lets through and writes down.
use antretix.Common.{
  ℕ, suc, ◌-◌, ◌≤◌, ◌<◌, ◌≡◌, refl, sym, ◌∙◌, ap, ◌⊎◌, inl, inr, true, false, List, [], ◌∷◌, arith,
  ltb, if◌then◌else◌, length, All, All-both,
}
use antretix.Shared.Keys.{key_eq, key_eq_self}
use antretix.Redis.{Redis, Entry, Member, zadd_entries, above}
use antretix.Lua.RateLimit.{
  RateLimitCheck, RateLimitReply, rate_limit, scan, record_all, slide, judge, no_block,
}

-- The entries of a sorted set that still count against a rule.
abbrev pub in_window : ℕ → RateLimitCheck → List Entry → List Entry
in_window now r es = if ltb now r.window_ms then es else above (now - r.window_ms) es

abbrev IsApart : RateLimitCheck → RateLimitCheck → Type 0
IsApart r q = (key_eq r.key q.key ≡ false) × (key_eq q.key r.key ≡ false)

-- The rules of one request have different keys.
abbrev pub DistinctKeys : List RateLimitCheck → Type 0
DistinctKeys [] = Unit
DistinctKeys (r ∷ rs) = All (IsApart r) rs × DistinctKeys rs

judge_free :
    (i now : ℕ) (r : RateLimitCheck) (es : List Entry) (reply : RateLimitReply)
    → length es < r.limit
    → judge i now r es reply ≡ reply
unfolding judge
judge_free i now r es reply h = ground arith

judge_quiet :
    (i now : ℕ) (r : RateLimitCheck) (es : List Entry) (reply : RateLimitReply)
    → (judge i now r es reply).retry ≡ 0
    → length es < r.limit
unfolding judge
judge_quiet i now r es reply h = ground arith

-- A reply names a rule exactly when it asks to wait.
abbrev IsReply : RateLimitReply → Type 0
IsReply r = ((r.blocked ≡ 0) × (r.retry ≡ 0)) ⊎ ((1 ≤ r.blocked) × (1 ≤ r.retry))

judge-IsReply :
    (i now : ℕ) (r : RateLimitCheck) (es : List Entry) (reply : RateLimitReply)
    → 1 ≤ i
    → IsReply reply
    → IsReply (judge i now r es reply)
unfolding judge
judge-IsReply i now r es reply p h = ground arith

judge-retry-le :
    (i now : ℕ) (r : RateLimitCheck) (es : List Entry) (reply : RateLimitReply)
    → reply.retry ≤ (judge i now r es reply).retry
unfolding judge
judge-retry-le i now r es reply = ground arith

module _ (R : Redis) where
  open R use {Store, slot, tie, zadd, pexpire, slot-zadd, slot-pexpire, slot-zremrangebyscore}

  abbrev pub log_of : Store → RateLimitCheck → List Entry
  log_of s r = (slot s r.key).zset

  log_of-slide :
      (s : Store) (now : ℕ) (r : RateLimitCheck)
      → log_of (slide R s now r) r ≡ in_window now r (log_of s r)
  unfolding slide
  log_of-slide s now r = grind (arith, slot-zremrangebyscore, key_eq_self)

  log_of-slide_ne :
      (s : Store) (now : ℕ) (r q : RateLimitCheck)
      → key_eq r.key q.key ≡ false
      → log_of (slide R s now r) q ≡ log_of s q
  unfolding slide
  log_of-slide_ne s now r q h = grind (arith, slot-zremrangebyscore)

  scan_apart :
      (s : Store) (now i : ℕ) (q : RateLimitCheck) (rules : List RateLimitCheck)
      (reply : RateLimitReply)
      → All (IsApart q) rules
      → log_of (scan R s now i rules reply).1 q ≡ log_of s q
  unfolding scan
  scan_apart s now i q [] reply h = refl
  scan_apart s now i q (r ∷ rs) reply h =
      scan_apart (slide R s now r) now (suc i) q rs _ h.1 ∙ log_of-slide_ne s now r q h.0.1

  -- What the first loop leaves of each log, and what the rules look like while it runs.
  abbrev Slid : Store → ℕ → Store → RateLimitCheck → Type 0
  Slid s now s' r = log_of s' r ≡ in_window now r (log_of s r)

  abbrev pub HasRoom : Store → ℕ → RateLimitCheck → Type 0
  HasRoom s now r = length (in_window now r (log_of s r)) < r.limit

  scan_logs :
      (s : Store) (now i : ℕ) (rules : List RateLimitCheck) (reply : RateLimitReply)
      → DistinctKeys rules
      → All (Slid s now (scan R s now i rules reply).1) rules
  unfolding scan
  scan_logs s now i [] reply h = tt
  scan_logs s now i (r ∷ rs) reply h = (
    scan_apart (slide R s now r) now (suc i) r rs _ h.0 ∙ log_of-slide s now r,
    All-both (IsApart r) _ (Slid s now _)
        (λ q a b. b ∙ ap (in_window now q) (log_of-slide_ne s now r q a.0)) rs h.0
        (scan_logs (slide R s now r) now (suc i) rs _ h.1),
  )

  scan-IsReply :
      (s : Store) (now i : ℕ) (rules : List RateLimitCheck) (reply : RateLimitReply)
      → 1 ≤ i
      → IsReply reply
      → IsReply (scan R s now i rules reply).0
  unfolding scan
  scan-IsReply s now i [] reply p h = h
  scan-IsReply s now i (r ∷ rs) reply p h =
      scan-IsReply (slide R s now r) now (suc i) rs _ (omega arith)
        (judge-IsReply i now r _ reply p h)

  scan-retry-le :
      (s : Store) (now i : ℕ) (rules : List RateLimitCheck) (reply : RateLimitReply)
      → reply.retry ≤ (scan R s now i rules reply).0.retry
  unfolding scan
  scan-retry-le s now i [] reply = omega arith
  scan-retry-le s now i (r ∷ rs) reply = omega (
    arith,
    judge-retry-le i now r (log_of (slide R s now r) r) reply,
    scan-retry-le (slide R s now r) now (suc i) rs
        (judge i now r (log_of (slide R s now r) r) reply),
  )

  same_room :
      (s s1 : Store) (now : ℕ) (q : RateLimitCheck)
      → log_of s1 q ≡ log_of s q
      → HasRoom s1 now q
      → HasRoom s now q
  same_room s s1 now q h room = rw (sym h) room

  room_before :
      (s : Store) (now : ℕ) (r : RateLimitCheck)
      → length (log_of (slide R s now r) r) < r.limit
      → HasRoom s now r
  room_before s now r h = rw (sym (log_of-slide s now r)) h

  scan_free :
      (s : Store) (now i : ℕ) (rules : List RateLimitCheck) (reply : RateLimitReply)
      → 1 ≤ i
      → DistinctKeys rules
      → (scan R s now i rules reply).0.retry ≡ 0
      → All (HasRoom s now) rules
  unfolding scan
  scan_free s now i [] reply p d h = tt
  scan_free s now i (r ∷ rs) reply p d h =
      let s1 = slide R s now r in
      let es = log_of s1 r in
      let rest = scan-retry-le s1 now (suc i) rs (judge i now r es reply) in
      (
        room_before s now r (judge_quiet i now r es reply (omega (arith, rest, h))),
        All-both (IsApart r) (HasRoom s1 now) (HasRoom s now)
            (λ q a b. same_room s s1 now q (log_of-slide_ne s now r q a.0) b) rs d.0
            (scan_free s1 now (suc i) rs (judge i now r es reply) (omega arith) d.1 h),
      )

  scan_pass :
      (s : Store) (now i : ℕ) (rules : List RateLimitCheck) (reply : RateLimitReply)
      → DistinctKeys rules
      → All (HasRoom s now) rules
      → (scan R s now i rules reply).0 ≡ reply
  unfolding scan
  scan_pass s now i [] reply d h = refl
  scan_pass s now i (r ∷ rs) reply d h =
      let s1 = slide R s now r in
      ap (λ x. (scan R s1 now (suc i) rs x).0)
        (judge_free i now r (log_of s1 r) reply (rw (log_of-slide s now r) h.0))
      ∙ (scan_pass s1 now (suc i) rs reply d.1 (
          All-both (IsApart r) (HasRoom s now) (HasRoom s1 now)
            (λ q a b. same_room s1 s now q (sym (log_of-slide_ne s now r q a.0)) b) rs d.0 h.1))

  record_all_apart :
      (s : Store) (now : ℕ) (m : Member) (q : RateLimitCheck) (rules : List RateLimitCheck)
      → All (IsApart q) rules
      → log_of (record_all R s now m rules) q ≡ log_of s q
  unfolding record_all
  record_all_apart s now m q [] h = refl
  record_all_apart s now m q (r ∷ rs) h =
      record_all_apart (pexpire (zadd s r.key now m) r.key r.window_ms) now m q rs h.1
      ∙ grind (arith, slot-zadd, slot-pexpire)

  abbrev Noted : Store → ℕ → Member → Store → RateLimitCheck → Type 0
  Noted s now m s' r = log_of s' r ≡ zadd_entries tie now m (log_of s r)

  record_all_logs :
      (s : Store) (now : ℕ) (m : Member) (rules : List RateLimitCheck)
      → DistinctKeys rules
      → All (Noted s now m (record_all R s now m rules)) rules
  unfolding record_all
  record_all_logs s now m [] d = tt
  record_all_logs s now m (r ∷ rs) d =
      let s1 = pexpire (zadd s r.key now m) r.key r.window_ms in
      (
        record_all_apart s1 now m r rs d.0 ∙ grind (arith, slot-zadd, slot-pexpire, key_eq_self),
        All-both (IsApart r) (Noted s1 now m _) (Noted s now m _)
            (λ q a b. b ∙ ap (zadd_entries tie now m) (grind (arith, slot-zadd, slot-pexpire))) rs
            d.0 (record_all_logs s1 now m rs d.1),
      )

  abbrev pub Passes : Store → List RateLimitCheck → ℕ → Member → RateLimitReply × Store → Type 0
  Passes s rules now m (reply, s') =
      (reply ≡ no_block)
      × All (HasRoom s now) rules
      × All (λ r. log_of s' r ≡ zadd_entries tie now m (in_window now r (log_of s r))) rules

  abbrev pub Blocks : Store → List RateLimitCheck → ℕ → RateLimitReply × Store → Type 0
  Blocks s rules now (reply, s') =
      (1 ≤ reply.blocked)
      × (1 ≤ reply.retry)
      × ¬ All (HasRoom s now) rules
      × All (Slid s now s') rules

  -- A request with rules of different keys passes when every rule has room in its window, and then
  -- every log holds what was in the window and this request; else the reply names a rule and a wait
  -- of at least 1 ms, and the request is written into no log: each only loses what left the window.
  pub rate_limit_result :
      (s : Store) (rules : List RateLimitCheck) (now : ℕ) (m : Member)
      → DistinctKeys rules
      → let result = rate_limit R s rules now m in
        Passes s rules now m result ⊎ Blocks s rules now result
  unfolding rate_limit
  rate_limit_result s rules now m d =
      let (reply, s1) = scan R s now 1 rules no_block in
      let logs = scan_logs s now 1 rules no_block d in
      let full : All (HasRoom s now) rules → 1 ≤ (scan R s now 1 rules no_block).0.retry → ⊥ =
        λ room t. let e = scan_pass s now 1 rules no_block d room in ground arith in
      elim (scan-IsReply s now 1 rules no_block (omega arith) (inl (refl, refl))) [
        | inl (b, t) ↦ rw b (
            inl (
              refl,
              scan_free s now 1 rules no_block (omega arith) d t,
              All-both (Slid s now s1) (Noted s1 now m _) _
                  (λ r a c. c ∙ ap (zadd_entries tie now m) a) rules logs
                  (record_all_logs s1 now m rules d),
            ))
        | inr (b, t) ↦
            let stop : ltb 0 (scan R s now 1 rules no_block).0.blocked ≡ true = ground arith in
            rw stop (inr (b, t, λ room. full room t, logs))
      ]
