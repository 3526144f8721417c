-- ===== src/Core/Queue.antt =====
-- packages/core/src/queue.ts: what a user is told about the queue, and leaving it. The tokens
-- and the function that signs one are parameters.
pub mod Position
pub mod Moving
pub mod Fifo
pub mod Examples
use antretix.Common.{ℕ, suc, ◌*◌, Bool, true, false, ◌&&◌, ◌||◌, Option, none, some, if◌then◌else◌}
use antretix.Common.Int.{ℤ, pos, pos_part, ltb_ℤ, leb_ℤ}
use antretix.Shared.Constants.{
  QueueStatus, scheduled, prequeue, open_, paused, sold_out, closed, defaults,
}
use antretix.Shared.Double.{Double}
use antretix.Shared.Eta.{EtaRange, estimate_wait}
use antretix.Shared.Keys
use antretix.Redis.{Redis, Text, queue_status, word, id}
use antretix.Lua.Status.{StatusSnapshot, status}
use antretix.Core.Events.{EventMeta, same_queue_status}

pub record QueueTokenClaims : Type 0 where
  pub user_id : ℕ
  pub event_id : ℕ
  pub expires_at_ms : ℤ

pub record Waiting : Type 0 where
  pub position : ℕ
  pub ahead : ℕ
  pub total : ℕ
  pub eta : Option EtaRange
  pub paused : Bool
  pub stock_exhausted : Bool

pub data QueueState (T : Type 0) : Type 0 where
  not_started : ℕ → ℕ → QueueState T  -- when the waiting room and the sale open
  waiting_room : ℕ → QueueState T  -- when the sale opens
  waiting : Waiting → QueueState T
  admitted : T → ℤ → QueueState T  -- the token and when it expires
  not_in_queue : QueueStatus → QueueState T
  sold_out_state : QueueState T

-- toQueueStatus
abbrev pub to_queue_status : Text → QueueStatus
to_queue_status (queue_status q) = q
to_queue_status (word w) = scheduled

abbrev pub is_status : Text → QueueStatus → Bool
is_status (queue_status q) p = same_queue_status q p
is_status (word w) p = false

abbrev pub eta_window_ms : ℕ
eta_window_ms = defaults.eta_window_sec * 1000

module _ (D : Double) where
  open D use {of_ℕ, quot}

  -- The last case: the user waits. `rank` is not below 0 here.
  unfoldable pub waiting_state : StatusSnapshot → Waiting
  waiting_state snapshot =
      let is_paused = is_status snapshot.queue_status_text paused in
      let exhausted = leb_ℤ snapshot.stock_total (pos 0) in
      let ahead = pos_part snapshot.rank in
      let observed = quot (of_ℕ snapshot.admits_in_window) (of_ℕ defaults.eta_window_sec) in
      let fallback = of_ℕ (if is_paused || exhausted then 0 else pos_part snapshot.admit_per_sec) in
      record {
        position = suc ahead;
        ahead = ahead;
        total = snapshot.total;
        eta =
            if is_paused || exhausted then none else estimate_wait D (suc ahead) observed fallback;
        paused = is_paused;
        stock_exhausted = exhausted;
      }

  -- What the snapshot means for the user.
  unfoldable pub state_of :
      {T : Type 0} → (QueueTokenClaims → T) → EventMeta → ℕ → ℕ → StatusSnapshot → QueueState T
  unfolding waiting_state
  state_of sign meta user now snapshot =
      if is_status snapshot.queue_status_text sold_out
      then sold_out_state
      else if ltb_ℤ (pos 0) snapshot.admitted_pttl && ltb_ℤ (pos now) snapshot.active_expires_at
      then admitted
          (sign (record {
            user_id = user;
            event_id = meta.event.id;
            expires_at_ms = snapshot.active_expires_at;
          }))
          snapshot.active_expires_at
      else if is_status snapshot.queue_status_text scheduled
      then not_started meta.event.pre_queue_at meta.event.sale_opens_at
      else if ltb_ℤ snapshot.rank (pos 0)
      then not_in_queue (to_queue_status snapshot.queue_status_text)
      else if is_status snapshot.queue_status_text prequeue
      then waiting_room meta.event.sale_opens_at
      else waiting (waiting_state snapshot)

  module _ (R : Redis) where
    open R use {Store}

    unfoldable pub get_queue_state :
        {T : Type 0} → (QueueTokenClaims → T) → Store → EventMeta → ℕ → ℕ → QueueState T × Store
    unfolding state_of
    get_queue_state sign s meta user now =
        let (snapshot, s1) = status R s meta.event.id user now eta_window_ms meta.stock_keys in
        (state_of sign meta user now snapshot, s1)

module _ (R : Redis) where
  open R use {Store, zrem, del}

  -- leaveQueue, one MULTI
  unfoldable pub leave_queue : Store → ℕ → ℕ → Store
  leave_queue s event user =
      let s1 = zrem s (Keys.queue event) (id user) in
      let s2 = zrem s1 (Keys.heartbeat event) (id user) in
      let s3 = zrem s2 (Keys.active event) (id user) in del s3 (Keys.admitted event user)
