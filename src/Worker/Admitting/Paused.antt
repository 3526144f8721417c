-- ===== src/Worker/Admitting/Paused.antt =====
-- A pause holds: whoever ticks, nobody is admitted until the queue is resumed.
use antretix.Common.{
  ℕ, ◌≡◌, ◌⊎◌, refl, sym, ◌∙◌, ap, subst, some, List, [], ◌∷◌, arith, Bool-cases, inl, inr, All,
  ◌≢◌,
}
use antretix.Common.Int.{pos, leb_ℤ}
use antretix.Shared.Constants.{sold_out, open_, paused}
use antretix.Shared.Keys
use antretix.Redis.{Redis, Entry, queue_status, Slot}
use antretix.Lua.Leader.{leader}
use antretix.Lua.Leader.Lock.{slot-leader}
use antretix.Lua.Queue.{admit}
use antretix.Lua.Queue.Joining.{queue_of}
use antretix.Lua.Queue.Admission.{admit_not_open}
use antretix.Lua.Queue.Frame.{status_of, status_of-admit}
use antretix.Core.Context.{CoreSettings, World}
use antretix.Core.Events.{
  EventMeta, scheduled_queue_status, next_queue_status, read_queue_status, admit_per_sec_field,
  max_active_field,
}
use antretix.Core.Admin.{QueueControl, QueueAction, control_queue}
use antretix.Core.Admin.Pausing.{control_queue_stops}
use antretix.Shared.Errors.{returned}
use antretix.Worker.{Worker, leader_ttl_ms}
use antretix.Worker.Admitting.{
  config_number, close_sale, check_sold_out, follow_schedule, lead_event, admit_event,
}
use antretix.Worker.Admitting.SoldOut.{check_sold_out_result}

module _ (R : Redis) where
  open R use {Store, slot, slot-set_text}

  -- The sale is held, by a pause or for good.
  abbrev IsHeld : Store → ℕ → Type 0
  IsHeld s e =
      (status_of R s e ≡ some (queue_status paused))
      ⊎ (status_of R s e ≡ some (queue_status sold_out))

  -- The sale is held, and the queue is the one given.
  abbrev Waits : Store → ℕ → List Entry → Type 0
  Waits s e queue = IsHeld s e × (queue_of R s e ≡ queue)

  still_waiting :
      (s s' : Store) (e : ℕ) (queue : List Entry)
      → slot s' (Keys.status e) ≡ slot s (Keys.status e)
      → slot s' (Keys.queue e) ≡ slot s (Keys.queue e)
      → Waits s e queue
      → Waits s' e queue
  still_waiting s s' e queue status line (held, here) = (
    subst
        (λ h.
          (Slot.text h ≡ some (queue_status paused)) ⊎ (Slot.text h ≡ some (queue_status sold_out)))
        (sym status) held,
    ap Slot.zset line ∙ here,
  )

  check_sold_out-Waits :
      (worker : Worker) (w : World R) (meta : EventMeta) (now : ℕ) (queue : List Entry)
      → Waits w.redis meta.event.id queue
      → Waits (check_sold_out R worker w meta now).1.redis meta.event.id queue
  unfolding close_sale
  check_sold_out-Waits worker w meta now queue waits =
      elim (check_sold_out_result R worker w meta now) [
        | inl same ↦ subst (λ x. Waits (World.redis x) meta.event.id queue) (sym same) waits
        | inr (shut, sold) ↦
            subst (λ x. Waits (World.redis x) meta.event.id queue) (sym shut)
              (inr (grind (arith, slot-set_text)), grind (arith, slot-set_text))
      ]

  follow_schedule_held :
      (worker : Worker) (w : World R) (meta : EventMeta) (now : ℕ)
      → IsHeld w.redis meta.event.id
      → scheduled_queue_status meta.event now ≡ open_
      → follow_schedule R worker w meta now ≡ (worker, w)
  unfolding follow_schedule read_queue_status next_queue_status
  follow_schedule_held worker w meta now (inl at) opens = rw (follow_schedule, at, opens) refl
  follow_schedule_held worker w meta now (inr at) opens = rw (follow_schedule, at, opens) refl

  not_open : (s : Store) (e : ℕ) → IsHeld s e → status_of R s e ≢ some (queue_status open_)
  not_open s e held is_open = ground arith

  admit-Waits :
      (s : Store) (e now rate max_active ttl : ℕ) (stock_keys : List Keys.Key) (queue : List Entry)
      → Waits s e queue
      → Waits (admit R s e stock_keys now rate max_active ttl).1 e queue
  admit-Waits s e now rate max_active ttl stock_keys queue (held, here) =
      let (none_in, same, live) =
        admit_not_open R s e now rate max_active ttl stock_keys (not_open s e held) in
      let still = status_of-admit R s e now rate max_active ttl stock_keys in
      (ground (arith, still), same ∙ here)

  lead_event-Waits :
      (settings : CoreSettings) (worker : Worker) (w : World R) (meta : EventMeta) (now : ℕ)
      (queue : List Entry)
      → Waits w.redis meta.event.id queue
      → scheduled_queue_status meta.event now ≡ open_
      → Waits (lead_event R settings worker w meta now).1.redis meta.event.id queue
  unfolding lead_event
  lead_event-Waits settings worker w meta now queue waits opens =
      let config = slot w.redis (Keys.config meta.event.id) in
      let rate = config_number (config.field admit_per_sec_field) meta.event.admit_per_sec in
      let max_active = config_number (config.field max_active_field) meta.event.max_active in
      let ttl = settings.session_ttl_ms in
      let (result, s2) = admit R w.redis meta.event.id meta.stock_keys now rate max_active ttl in
      let after =
        admit-Waits w.redis meta.event.id now rate max_active ttl meta.stock_keys queue waits in
      let w2 : World R = record w { redis = s2 } in
      rw (lead_event, follow_schedule_held worker w meta now waits.0 opens)
        (elim (Bool-cases (leb_ℤ result.stock_total (pos 0))) [
          | inl empty ↦ rw empty (check_sold_out-Waits worker w2 meta now queue after)
          | inr stocked ↦ rw stocked after
        ])

  admit_event-Waits :
      (settings : CoreSettings) (worker : Worker) (w : World R) (meta : EventMeta) (now : ℕ)
      (queue : List Entry)
      → Waits w.redis meta.event.id queue
      → scheduled_queue_status meta.event now ≡ open_
      → Waits (admit_event R settings worker w meta now).1.redis meta.event.id queue
  unfolding admit_event
  admit_event-Waits settings worker w meta now queue waits opens =
      let e = meta.event.id in
      let lock = Keys.admission_lock e in
      let (is_leader, s1) = leader R w.redis lock worker.instance_id leader_ttl_ms in
      let w1 : World R = record w { redis = s1 } in
      let same_status =
        slot-leader R w.redis lock worker.instance_id leader_ttl_ms (Keys.status e) refl in
      let same_queue =
        slot-leader R w.redis lock worker.instance_id leader_ttl_ms (Keys.queue e) refl in
      let locked : Waits s1 e queue =
        still_waiting w.redis s1 e queue same_status same_queue waits in
      elim (Bool-cases is_leader) [
        | inl leads ↦
            rw (admit_event, leads)
              (lead_event-Waits settings worker w1 meta now queue locked opens)
        | inr follows ↦ rw (admit_event, follows) locked
      ]

  -- Ticks for one event, each of some worker at some time.
  abbrev pub run_ticks : CoreSettings → World R → EventMeta → List (Worker × ℕ) → World R
  run_ticks settings w meta [] = w
  run_ticks settings w meta ((worker, now) ∷ ticks) =
      run_ticks settings (admit_event R settings worker w meta now).1 meta ticks

  run_ticks-Waits :
      (ticks : List (Worker × ℕ)) (settings : CoreSettings) (w : World R) (meta : EventMeta)
      (queue : List Entry)
      → Waits w.redis meta.event.id queue
      → All (λ t. scheduled_queue_status meta.event t.1 ≡ open_) ticks
      → Waits (run_ticks settings w meta ticks).redis meta.event.id queue
  run_ticks-Waits [] settings w meta queue waits opens = waits
  run_ticks-Waits ((worker, now) ∷ ticks) settings w meta queue waits opens =
      run_ticks-Waits ticks settings (admit_event R settings worker w meta now).1 meta queue
        (admit_event-Waits settings worker w meta now queue waits opens.0) opens.1

  -- An administrator pauses the queue and is answered PAUSED. Whatever ticks follow, of whatever
  -- workers and at whatever times at which the schedule that they have has the sale open, nobody
  -- leaves the queue: it is as it was before the pause.
  pub pause_holds :
      (settings : CoreSettings) (w : World R) (meta : EventMeta) (control : QueueControl)
      (ticks : List (Worker × ℕ))
      → control.action ≡ some QueueAction.pause
      → (control_queue R w meta.event.id control).0 ≡ returned (some paused)
      → All (λ t. scheduled_queue_status meta.event t.1 ≡ open_) ticks
      → let w1 = (control_queue R w meta.event.id control).1 in
        queue_of R (run_ticks settings w1 meta ticks).redis meta.event.id
        ≡ queue_of R w.redis meta.event.id
  pause_holds settings w meta control ticks is_pause reply opens =
      let (stopped, same) = control_queue_stops R w meta.event.id control is_pause reply in
      (run_ticks-Waits ticks settings (control_queue R w meta.event.id control).1 meta
        (queue_of R w.redis meta.event.id) (inl stopped, same) opens).1
