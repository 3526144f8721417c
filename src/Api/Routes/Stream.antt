-- ===== src/Api/Routes/Stream.antt =====
-- apps/api/src/routes/queue.ts, GET /events/:id/queue/stream: the server pushes the state at an
-- interval until it is final. The headers and the metrics are left out.
pub mod Ending
pub mod Examples
use antretix.Common.{ℕ, suc, ◌-◌, ◌<◌, ◌≡◌, Bool, true, false, Option, List, [], ◌∷◌, if◌then◌else◌}
use antretix.Shared.Errors.{Outcome, returned, thrown, failed}
use antretix.Core.Events.{EventMeta}
use antretix.Core.Queue.{QueueState, admitted, sold_out_state, not_in_queue}
use antretix.Api.Auth.{AuthUser}
use antretix.Api.Routes.Waiting.{check_status}

-- isFinalState
abbrev pub is_final_state : {T : Type 0} → QueueState T → Bool
is_final_state (admitted t e) = true
is_final_state sold_out_state = true
is_final_state (not_in_queue q) = true
is_final_state _ = false

-- What was written, the newest first, whether the response has ended, whether the timer runs, and
-- how many pushes wait for a state.
pub record Stream (T : Type 0) : Type 0 where
  pub written : List (QueueState T)
  pub closed : Bool
  pub timer : Bool
  pub pushes : ℕ

module _ {T : Type 0} where
  -- After the headers: the timer is set and the first push has begun.
  abbrev pub started : Stream T
  started = record { written = []; closed = false; timer = true; pushes = 1 }

  unfoldable pub finish : Stream T → Stream T
  finish s = if s.closed then s else record s { closed = true; timer = false }

  -- push, up to its wait
  unfoldable pub push : Stream T → Stream T
  push s = if s.closed then s else record s { pushes = suc s.pushes }

  -- push, after its wait
  unfoldable pub pushed : Stream T → QueueState T → Stream T
  unfolding finish
  pushed s state =
      let s1 = record s { pushes = s.pushes - 1 } in
      let s2 = record s1 { written = state ∷ s.written } in
      if s.closed then s1 else if is_final_state state then finish s2 else s2

  -- A state that could not be read ends the stream.
  unfoldable pub push_failed : Stream T → Stream T
  unfolding finish
  push_failed s = finish (record s { pushes = s.pushes - 1 })

-- The guards, in their order.
unfoldable pub get_stream :
    {T : Type 0} → (ℕ → Option EventMeta) → Option ℕ → Option AuthUser → Outcome (Stream T)
get_stream events event_id auth_user = elim (check_status events event_id auth_user) [
  | returned checked ↦ returned started
  | thrown e ↦ thrown e
  | failed ↦ failed
]

-- What may happen: the timer fires, a push gets its state or an error, the client goes away.
pub data Step {T : Type 0} (s : Stream T) : Stream T → Type 0 where
  ticks : s.timer ≡ true → Step s (push s)
  answers : (state : QueueState T) → 0 < s.pushes → Step s (pushed s state)
  fails : 0 < s.pushes → Step s (push_failed s)
  hangs_up : Step s (finish s)

pub data Reach {T : Type 0} (s : Stream T) : Stream T → Type 0 where
  here : Reach s s
  next : {t u : Stream T} → Reach s t → Step t u → Reach s u
