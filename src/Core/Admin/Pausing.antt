-- ===== src/Core/Admin/Pausing.antt =====
-- admin.ts, controlQueue: what a pause that is answered PAUSED leaves.
use antretix.Common.{ℕ, ◌≡◌, refl, ◌∙◌, ap, Option, some, none, arith, Option-cases, inl, inr, List}
use antretix.Shared.Constants.{QueueStatus, paused}
use antretix.Shared.Errors.{Outcome, returned}
use antretix.Shared.Keys
use antretix.Redis.{Redis, Slot, Text, Entry, queue_status, word}
use antretix.Lua.Queue.Joining.{queue_of}
use antretix.Lua.Queue.Frame.{status_of}
use antretix.Core.Context.{World}
use antretix.Core.Events.{load_event_meta, read_queue_status, as_queue_status, write_event_config}
use antretix.Core.Events.Sync.{slot-write_event_config}
use antretix.Core.Admin.{
  QueueControl, QueueAction, control_queue, control_in_redis, act, acted_on, update_rates,
}

text_of_status :
    (t : Option Text) (q : QueueStatus) → as_queue_status t ≡ some q → t ≡ some (queue_status q)
text_of_status none q h = cc
text_of_status (some (queue_status p)) q h = cc
text_of_status (some (word n)) q h = cc

module _ (R : Redis) where
  open R use {Store, slot, slot-set_text, slot-hset}

  -- The sale is paused, and the queue is the one given.
  abbrev IsStopped : Store → ℕ → List Entry → Type 0
  IsStopped s e queue = (status_of R s e ≡ some (queue_status paused)) × (queue_of R s e ≡ queue)

  act_stops :
      (s : Store) (e : ℕ) (current : Option QueueStatus)
      → read_queue_status R s e ≡ current
      → (act R s e current (acted_on (some QueueAction.pause) current)).0 ≡ some paused
      → IsStopped
          (act R s e current (acted_on (some QueueAction.pause) current)).1
          e
          (queue_of R s e)
  unfolding act read_queue_status
  act_stops s e (some QueueStatus.paused) at reply =
      (text_of_status (status_of R s e) paused at, refl)
  act_stops s e (some QueueStatus.open_) at reply =
      (grind (arith, slot-set_text), grind (arith, slot-set_text))
  act_stops s e none at reply = cc
  act_stops s e (some QueueStatus.scheduled) at reply = cc
  act_stops s e (some QueueStatus.prequeue) at reply = cc
  act_stops s e (some QueueStatus.sold_out) at reply = cc
  act_stops s e (some QueueStatus.closed) at reply = cc

  -- An answer that is PAUSED is true.
  abbrev StopsAsTold : Store → ℕ → Outcome (Option QueueStatus) × World R → Type 0
  StopsAsTold s e (reply, w') =
      reply ≡ returned (some paused) → IsStopped w'.redis e (queue_of R s e)

  control_in_redis_stops :
      (w : World R) (e : ℕ)
      → StopsAsTold w.redis e (control_in_redis R w e (some QueueAction.pause))
  unfolding control_in_redis
  control_in_redis_stops w e = elim (Option-cases (load_event_meta w.db e)) [
    | inl gone ↦ rw (control_in_redis, gone) (λ reply. cc)
    | inr (meta, there) ↦
        let s1 = write_event_config R w.redis meta in
        let line = ap Slot.zset (slot-write_event_config R w.redis meta (Keys.queue e) refl) in
        rw (control_in_redis, there)
          (λ reply.
            let (stopped, same) = act_stops s1 e (read_queue_status R s1 e) refl cc in
            (stopped, same ∙ line))
  ]

  -- A pause that is answered PAUSED, whatever rates it sets: the status in Redis is PAUSED and the
  -- queue is as it was.
  pub control_queue_stops :
      (w : World R) (e : ℕ) (control : QueueControl)
      → control.action ≡ some QueueAction.pause
      → StopsAsTold w.redis e (control_queue R w e control)
  unfolding control_queue
  control_queue_stops w e control is_pause = elim (Option-cases (update_rates w.db e control)) [
    | inl raised ↦ rw (control_queue, raised) (λ reply. cc)
    | inr (db, written) ↦
        rw (control_queue, written, is_pause) (control_in_redis_stops (record w { db = db }) e)
  ]
