-- ===== src/Shared/Keys.antt =====
-- packages/shared/src/keys.ts: the names of the Redis keys, one constructor for each template of
-- `keys`. Identifiers are opaque strings that the program only compares, so they are natural
-- numbers here, and two keys are the same string when template and identifiers agree.
use antretix.Common.{ℕ, ◌≡◌, Bool, true, ◌&&◌, ◌==◌, arith}

pub data Key : Type 0 where
  queue active heartbeat status config categories admit_stats : ℕ → Key
  order_stats paid_stats admission_lock job_lock signup_ip : ℕ → Key
  admitted stock bought rate_limit idempotency reconcile_diff : ℕ → ℕ → Key

-- The template's number and the identifiers that it puts in.
abbrev parts : Key → ℕ × ℕ × ℕ
parts (queue e) = (0, e, 0)
parts (active e) = (1, e, 0)
parts (heartbeat e) = (2, e, 0)
parts (status e) = (3, e, 0)
parts (config e) = (4, e, 0)
parts (categories e) = (5, e, 0)
parts (admit_stats e) = (6, e, 0)
parts (order_stats e) = (7, e, 0)
parts (paid_stats e) = (8, e, 0)
parts (admission_lock e) = (9, e, 0)
parts (job_lock j) = (10, j, 0)
parts (signup_ip i) = (11, i, 0)
parts (admitted e u) = (12, e, u)
parts (stock e c) = (13, e, c)
parts (bought e u) = (14, e, u)
parts (rate_limit s i) = (15, s, i)
parts (idempotency u k) = (16, u, k)
parts (reconcile_diff e c) = (17, e, c)

abbrev same_parts : ℕ × ℕ × ℕ → ℕ × ℕ × ℕ → Bool
same_parts (t, a, b) (t', a', b') = (t == t') && (a == a') && (b == b')

abbrev pub key_eq : Key → Key → Bool
key_eq k j = same_parts (parts k) (parts j)

same_parts_self : (p : ℕ × ℕ × ℕ) → same_parts p p ≡ true
same_parts_self (t, a, b) = ground arith

pub key_eq_self : (k : Key) → key_eq k k ≡ true
key_eq_self k = same_parts_self (parts k)
