-- ===== src/Core/Events/Schedule.antt =====
-- The status of a queue over time.
use antretix.Common.{ℕ, ◌≤◌, ◌<◌, ◌≡◌, ◌≢◌, refl, Option, some, List, [], ◌∷◌, arith, All}
use antretix.Shared.Constants.{QueueStatus, scheduled, prequeue, open_, paused, sold_out, closed}
use antretix.Database.Schema.{Event, EventStatus}
use antretix.Core.Events.{scheduled_queue_status, next_queue_status}

-- How far the sale has come.
abbrev pub phase : QueueStatus → ℕ
phase scheduled = 0
phase prequeue = 1
phase open_ = 2
phase paused = 2
phase sold_out = 2
phase closed = 3

-- As time goes on, the phase that the schedule alone asks for never goes back.
pub phase-scheduled_queue_status_mono :
    (e : Event) (now later : ℕ)
    → now ≤ later
    → phase (scheduled_queue_status e now) ≤ phase (scheduled_queue_status e later)
unfolding scheduled_queue_status
phase-scheduled_queue_status_mono e now later h = ground arith

-- When the schedule and the present status together give OPEN, the waiting room and the sale have
-- opened, the event has not started and is neither a draft nor ended, and the present status is
-- neither paused nor sold out.
pub open_only_on_sale :
    (e : Event) (current : Option QueueStatus) (now : ℕ)
    → next_queue_status current (scheduled_queue_status e now) ≡ open_
    → (e.pre_queue_at ≤ now)
      × (e.sale_opens_at ≤ now)
      × (now < e.starts_at)
      × (e.status ≢ EventStatus.draft)
      × (e.status ≢ EventStatus.ended)
      × (current ≢ some paused)
      × (current ≢ some sold_out)
unfolding scheduled_queue_status next_queue_status
open_only_on_sale e current now h = ground arith

-- The status after the schedule was looked at at each of some times.
abbrev pub follow : Event → QueueStatus → List ℕ → QueueStatus
follow e q [] = q
follow e q (now ∷ times) =
    follow e (next_queue_status (some q) (scheduled_queue_status e now)) times

sold_out_step :
    (e : Event) (now : ℕ)
    → now < e.starts_at
    → e.status ≢ EventStatus.draft
    → e.status ≢ EventStatus.ended
    → next_queue_status (some sold_out) (scheduled_queue_status e now) ≡ sold_out
unfolding scheduled_queue_status next_queue_status
sold_out_step e now h d n = ground arith

-- However often the schedule is looked at before the event starts, an event that is sold out stays
-- so, if it is neither a draft nor ended.
pub follow_sold_out :
    (e : Event) (times : List ℕ)
    → All (λ now. now < e.starts_at) times
    → e.status ≢ EventStatus.draft
    → e.status ≢ EventStatus.ended
    → follow e sold_out times ≡ sold_out
follow_sold_out e [] h d n = refl
follow_sold_out e (now ∷ times) h d n =
    rw (sold_out_step e now h.0 d n) (follow_sold_out e times h.1 d n)

-- A second look at the same time changes nothing.
pub next_queue_status_idem :
    (current : Option QueueStatus) (s : QueueStatus)
    → next_queue_status (some (next_queue_status current s)) s ≡ next_queue_status current s
unfolding next_queue_status
next_queue_status_idem current s = ground arith
