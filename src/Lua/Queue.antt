-- ===== src/Lua/Queue.antt =====
-- packages/lua/scripts/join.lua, admit.lua and cleanup.lua: the waiting room.
--
-- A score of the queue is a number of 2^-53, so that both `Math.random()`, a multiple of that below
-- 1, and a time in whole milliseconds are natural numbers. The scores of the other sorted sets are
-- milliseconds.
pub mod Joining
pub mod Admission
pub mod Entering
pub mod Frame
pub mod Line
pub mod Examples
use antretix.Common.{
  ℕ, ◌+◌, ◌-◌, ◌*◌, Bool, true, false, not, ◌&&◌, ◌||◌, Option, none, some, List, [], ◌∷◌, ltb,
  ◌==◌, if◌then◌else◌, length, take,
}
use antretix.Common.Int.{ℤ, pos, negsuc, pos_part, ◌+ℤ◌, ◌-ℤ◌, ltb_ℤ, leb_ℤ}
use antretix.Shared.Constants.{QueueStatus}
use antretix.Shared.Keys
use antretix.Shared.Keys.{Key}
use antretix.Redis.{
  Redis, Entry, Member, Text, id, tick, queue_status, word, or_zero, score_of, rank_of, has,
  at_most,
}

-- One millisecond as a score of the queue.
abbrev pub ms_score : ℕ
ms_score = 9007199254740992

pub data JoinCode : Type 0 where
  queued prequeue admitted sold_out closed not_open : JoinCode

pub record JoinReply : Type 0 where
  pub code : JoinCode
  pub rank : ℤ
  pub added : Bool

abbrev pub rejected : JoinCode → JoinReply
rejected code = record { code = code; rank = negsuc 0; added = false }

-- The statuses in which one can join, with the code that the reply then has.
abbrev pub join_phase : Option Text → JoinCode
join_phase (some (queue_status QueueStatus.sold_out)) = JoinCode.sold_out
join_phase (some (queue_status QueueStatus.closed)) = JoinCode.closed
join_phase (some (queue_status QueueStatus.prequeue)) = JoinCode.prequeue
join_phase (some (queue_status QueueStatus.open_)) = JoinCode.queued
join_phase (some (queue_status QueueStatus.paused)) = JoinCode.queued
join_phase (some (queue_status QueueStatus.scheduled)) = JoinCode.not_open
join_phase (some (word w)) = JoinCode.not_open
join_phase none = JoinCode.not_open

abbrev is_some {ℓ} : {A : Type ℓ} → Option A → Bool
is_some none = false
is_some (some a) = true

abbrev pub rank_reply : Option ℕ → ℤ
rank_reply none = negsuc 0
rank_reply (some r) = pos r

-- The score of a newcomer: a lot before the sale opens, the time afterwards.
abbrev pub join_score : JoinCode → ℕ → ℕ → ℕ
join_score JoinCode.prequeue now random = random
join_score _ now random = now * ms_score

-- The third part of the reply of admit.lua.
pub data AdmitReason : Type 0 where
  admitted no_stock full : AdmitReason
  not_open : Option Text → AdmitReason

pub record AdmitReply : Type 0 where
  pub admitted : ℕ
  pub active : ℕ
  pub reason : AdmitReason
  pub stock_total : ℤ

abbrev pub nobody : ℕ → AdmitReason → ℤ → AdmitReply
nobody active reason stock = record {
  admitted = 0;
  active = active;
  reason = reason;
  stock_total = stock;
}

abbrev min_ℤ : ℤ → ℤ → ℤ
min_ℤ a b = if ltb_ℤ b a then b else a

-- math.min(rate, maxActive - active, stockTotal)
abbrev pub free_slots : ℕ → ℕ → ℕ → ℤ → ℤ
free_slots rate max_active active stock =
    min_ℤ (min_ℤ (pos rate) (pos max_active -ℤ pos active)) stock

-- The members of a queue are users.
abbrev pub user_of : Member → ℕ
user_of (id u) = u
user_of (tick t n) = t

module _ (R : Redis) where
  open R use {Store, slot, set_text_px, zadd, zadd_nx, zrem, zremrangebyscore, zpopmin}

  -- KEYS[4] exists and the user has an active session.
  unfoldable pub is_admitted : Store → ℕ → ℕ → Bool
  is_admitted s event user =
      is_some (slot s (Keys.admitted event user)).text
      && is_some (score_of (id user) (slot s (Keys.active event)).zset)

  pub enqueue : Store → ℕ → ℕ → ℕ → ℕ → JoinCode → JoinReply × Store
  enqueue s event user now random code =
      let added = not (has (id user) (slot s (Keys.queue event)).zset) in
      let s1 = zadd_nx s (Keys.queue event) (join_score code now random) (id user) in
      let s2 = zadd s1 (Keys.heartbeat event) now (id user) in
      (
        record {
          code = code;
          rank = rank_reply (rank_of (id user) (slot s2 (Keys.queue event)).zset);
          added = added;
        },
        s2,
      )

  pub join_in : Store → ℕ → ℕ → ℕ → ℕ → JoinCode → JoinReply × Store
  unfolding is_admitted enqueue
  join_in s event user now random JoinCode.prequeue =
      if is_admitted s event user
      then (rejected JoinCode.admitted, s)
      else enqueue s event user now random JoinCode.prequeue
  join_in s event user now random JoinCode.queued =
      if is_admitted s event user
      then (rejected JoinCode.admitted, s)
      else enqueue s event user now random JoinCode.queued
  join_in s event user now random code = (rejected code, s)

  -- join.lua
  unfoldable pub join : Store → ℕ → ℕ → ℕ → ℕ → JoinReply × Store
  unfolding join_in
  join s event user now random =
      join_in s event user now random (join_phase (slot s (Keys.status event)).text)

  -- The sum of the stock keys.
  unfoldable pub stock_total : Store → List Key → ℤ
  stock_total s [] = pos 0
  stock_total s (k ∷ ks) = or_zero (slot s k).counter +ℤ stock_total s ks

  -- What admit.lua does for one user that ZPOPMIN took.
  pub admit_user : Store → ℕ → ℕ → ℕ → Member → Store
  admit_user s event expires_at ttl m =
      zrem
        (set_text_px (zadd s (Keys.active event) expires_at m) (Keys.admitted event (user_of m))
          (word 1) ttl)
        (Keys.heartbeat event) m

  unfoldable pub admit_users : Store → ℕ → ℕ → ℕ → List Entry → Store
  unfolding admit_user
  admit_users s event expires_at ttl [] = s
  admit_users s event expires_at ttl (e ∷ es) =
      admit_users (admit_user s event expires_at ttl e.member) event expires_at ttl es

  pub record_admits : Store → ℕ → ℕ → ℕ → Store
  record_admits s event now count =
      let s1 = if ltb 0 count then zadd s (Keys.admit_stats event) now (tick now count) else s in
      if ltb now 300000 then s1 else zremrangebyscore s1 (Keys.admit_stats event) (now - 300000)

  -- The users at the front of the queue move to the active ones.
  admit_front : Store → ℕ → ℕ → ℕ → ℕ → ℕ → ℤ → AdmitReply × Store
  unfolding admit_users record_admits
  admit_front s event now ttl active slots stock =
      let popped = take slots (slot s (Keys.queue event)).zset in
      let s1 = zpopmin s (Keys.queue event) slots in
      let s2 = admit_users s1 event (now + ttl) ttl popped in
      (
        record {
          admitted = length popped;
          active = active + length popped;
          reason = AdmitReason.admitted;
          stock_total = stock;
        },
        record_admits s2 event now (length popped),
      )

  pub admit_open : Store → ℕ → ℕ → ℕ → ℕ → ℕ → ℕ → ℤ → AdmitReply × Store
  unfolding admit_front
  admit_open s event now rate max_active ttl active stock =
      let slots = free_slots rate max_active active stock in
      if leb_ℤ stock (pos 0)
      then (nobody active AdmitReason.no_stock stock, s)
      else if leb_ℤ slots (pos 0)
      then (nobody active AdmitReason.full stock, s)
      else admit_front s event now ttl active (pos_part slots) stock

  admit_in : Store → ℕ → ℕ → ℕ → ℕ → ℕ → ℕ → ℤ → Option Text → AdmitReply × Store
  unfolding admit_open
  admit_in s event now rate max_active ttl active stock (some (queue_status QueueStatus.open_)) =
      admit_open s event now rate max_active ttl active stock
  admit_in s event now rate max_active ttl active stock status =
      (nobody active (AdmitReason.not_open status) stock, s)

  -- admit.lua: one tick of the admission.
  unfoldable pub admit : Store → ℕ → List Key → ℕ → ℕ → ℕ → ℕ → AdmitReply × Store
  unfolding stock_total admit_in
  admit s event stock_keys now rate max_active ttl =
      let s1 = zremrangebyscore s (Keys.active event) now in
      admit_in s1 event now rate max_active ttl (length (slot s1 (Keys.active event)).zset)
        (stock_total s1 stock_keys) (slot s1 (Keys.status event)).text

  unfoldable pub drop_stale : Store → ℕ → List Entry → Store
  drop_stale s event [] = s
  drop_stale s event (e ∷ es) =
      drop_stale (zrem (zrem s (Keys.queue event) e.member) (Keys.heartbeat event) e.member) event
        es

  -- cleanup.lua
  unfoldable pub cleanup : Store → ℕ → ℕ → ℕ → ℕ × Store
  unfolding drop_stale
  cleanup s event cutoff batch =
      let stale = take batch (at_most cutoff (slot s (Keys.heartbeat event)).zset) in
      (length stale, drop_stale s event stale)
