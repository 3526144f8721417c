-- ===== src/Lua/Status.antt =====
-- packages/lua/scripts/status.lua: where a user stands, and the heartbeat of the queue.
pub mod Alive
pub mod Examples
use antretix.Common.{ℕ, ◌+◌, ◌-◌, Option, none, some, List, [], ◌∷◌, length}
use antretix.Common.Int.{ℤ, pos, negsuc}
use antretix.Shared.Constants.{QueueStatus}
use antretix.Shared.Keys
use antretix.Shared.Keys.{Key}
use antretix.Redis.{
  Redis, Slot, Entry, Member, Text, id, tick, queue_status, or_zero, score_of, rank_of, since,
}
use antretix.Lua.Queue.{stock_total, rank_reply}

pub record StatusSnapshot : Type 0 where
  pub queue_status_text : Text
  pub admitted_pttl : ℤ
  pub active_expires_at : ℤ
  pub rank : ℤ
  pub total : ℕ
  pub admits_in_window : ℕ
  pub admit_per_sec : ℤ
  pub stock_total : ℤ

abbrev pub text_or_scheduled : Option Text → Text
text_or_scheduled none = queue_status QueueStatus.scheduled
text_or_scheduled (some w) = w

-- PTTL of a key that holds a word: -2 if there is no key, -1 if it has no end.
abbrev time_left : Option ℕ → ℤ
time_left none = negsuc 0
time_left (some t) = pos t

abbrev pub pttl : Slot → ℤ
pttl h = elim h.text [ none ↦ negsuc 1 | some w ↦ time_left h.ttl ]

-- The number behind the colon, if there is one.
abbrev pub admits_of : Member → ℕ
admits_of (id u) = 0
admits_of (tick t n) = n

abbrev pub count_admits : List Entry → ℕ
count_admits [] = 0
count_admits (e ∷ es) = admits_of e.member + count_admits es

-- The field `admitPerSec` of the configuration.
abbrev pub rate_field : ℕ
rate_field = 0

module _ (R : Redis) where
  open R use {Store, slot, zadd_xx}

  beat : Store → ℕ → ℕ → ℕ → Option ℕ → Store
  beat s event user now none = s
  beat s event user now (some rank) = zadd_xx s (Keys.heartbeat event) now (id user)

  -- status.lua
  unfoldable pub status : Store → ℕ → ℕ → ℕ → ℕ → List Key → StatusSnapshot × Store
  unfolding beat stock_total
  status s event user now window stock_keys =
      let queue = (slot s (Keys.queue event)).zset in
      let rank = rank_of (id user) queue in
      (
        record {
          queue_status_text = text_or_scheduled (slot s (Keys.status event)).text;
          admitted_pttl = pttl (slot s (Keys.admitted event user));
          active_expires_at = rank_reply (score_of (id user) (slot s (Keys.active event)).zset);
          rank = rank_reply rank;
          total = length queue;
          admits_in_window =
              count_admits (since (now - window) (slot s (Keys.admit_stats event)).zset);
          admit_per_sec = or_zero ((slot s (Keys.config event)).field rate_field);
          stock_total = stock_total R s stock_keys;
        },
        beat s event user now rank,
      )
