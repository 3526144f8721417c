-- ===== src/Web/Connection.antt =====
-- apps/web/lib/queue.ts, useQueueState: how a page follows the queue, by server-sent events and by
-- polling while they are down. One run of the effect is modelled, from its start to its cleanup.
pub mod Watching
pub mod Examples
use antretix.Common.{
  ℕ, suc, ◌-◌, ◌<◌, ◌≡◌, Bool, true, false, not, ◌&&◌, ◌||◌, Option, none, some, if◌then◌else◌,
}
use antretix.Common.Int.{ℤ}
use antretix.Core.Queue.{QueueState, admitted, sold_out_state, not_in_queue}

pub data ConnectionMode : Type 0 where
  connecting live polling reconnecting : ConnectionMode

-- What a variable for a connection or a timer holds: nothing yet, one that runs, or one that was
-- closed. Closing one that does not run does nothing.
pub data Handle : Type 0 where
  unset running closed : Handle

abbrev pub close : Handle → Handle
close running = closed
close h = h

abbrev pub is_running : Handle → Bool
is_running running = true
is_running _ = false

abbrev pub is_unset : Handle → Bool
is_unset unset = true
is_unset _ = false

-- The state of the hook, the variables of the effect, the requests that wait for an answer, and the
-- queue token in the session's storage. `retry` says that the timer of a new attempt runs.
pub record Connection (T : Type 0) : Type 0 where
  pub state : Option (QueueState T)
  pub mode : ConnectionMode
  pub error : Option ℕ
  pub finished : Bool
  pub disposed : Bool
  pub source : Handle
  pub poll_timer : Handle
  pub retry : Bool
  pub in_flight : ℕ
  pub stored_token : Option (T × ℤ)

abbrev pub is_final : {T : Type 0} → QueueState T → Bool
is_final (admitted t e) = true
is_final (not_in_queue q) = true
is_final sold_out_state = true
is_final _ = false

abbrev pub save_token : {T : Type 0} → QueueState T → Option (T × ℤ) → Option (T × ℤ)
save_token (admitted t e) stored = some (t, e)
save_token _ stored = stored

-- What a failed poll leaves as the error: nothing if it was RATE_LIMITED.
pub data PollError : Type 0 where
  rate_limited : PollError
  other_error : ℕ → PollError

abbrev pub error_message : PollError → Option ℕ
error_message rate_limited = none
error_message (other_error message) = some message

module _ {T : Type 0} where
  unfoldable pub apply : Connection T → QueueState T → Connection T
  apply c next =
      let shown = record c {
        state = some next;
        error = none;
        stored_token = save_token next c.stored_token;
      } in
      if is_final next
      then record shown {
        finished = true;
        source = close c.source;
        poll_timer = close c.poll_timer;
      }
      else shown

  -- poll
  abbrev pub send_poll : Connection T → Connection T
  send_poll c = record c { in_flight = suc c.in_flight }

  unfoldable pub start_polling : Connection T → Connection T
  start_polling c =
      if not (is_unset c.poll_timer) || c.finished
      then c
      else record c { in_flight = suc c.in_flight; poll_timer = running }

  -- `token` says that the browser has a login token.
  unfoldable pub open_stream : Bool → Connection T → Connection T
  open_stream token c =
      if not token || c.finished || c.disposed then c else record c { source = running }

  -- Before the effect: nothing is shown.
  abbrev pub idle : ConnectionMode → Connection T
  idle mode = record {
    state = none;
    mode = mode;
    error = none;
    finished = false;
    disposed = false;
    source = unset;
    poll_timer = unset;
    retry = false;
    in_flight = 0;
    stored_token = none;
  }

  -- The effect, in a browser with or without EventSource.
  unfoldable pub mount : Bool → Bool → Connection T
  unfolding start_polling open_stream
  mount event_source token =
      if event_source then open_stream token (idle connecting) else start_polling (idle polling)

  -- The listener of "open".
  unfoldable pub stream_opened : Connection T → Connection T
  stream_opened c = record c { mode = live; poll_timer = unset }

  -- The listener of "error".
  unfoldable pub stream_failed : Connection T → Connection T
  unfolding start_polling
  stream_failed c =
      let c1 = record c { source = close c.source } in
      if c.finished || c.disposed
      then c1
      else record (start_polling (record c1 { mode = reconnecting })) { retry = true }

  -- The cleanup of the effect.
  unfoldable pub dispose : Connection T → Connection T
  dispose c = record c {
    disposed = true;
    source = close c.source;
    poll_timer = close c.poll_timer;
    retry = false;
  }

  abbrev answered : Connection T → Connection T
  answered c = record c { in_flight = c.in_flight - 1 }

  unfoldable pub poll_answered : Connection T → QueueState T → Connection T
  unfolding apply
  poll_answered c next = if c.disposed then answered c else apply (answered c) next

  unfoldable pub poll_failed : Connection T → PollError → Connection T
  poll_failed c cause =
      if c.disposed then answered c else record (answered c) { error = error_message cause }

-- What may happen next: only an open stream sends, only a running timer fires, and only a request
-- that was sent is answered. A status that the schema refuses changes nothing.
pub data Step {T : Type 0} (c : Connection T) : Connection T → Type 0 where
  opens : c.source ≡ running → Step c (stream_opened c)
  sends : (next : QueueState T) → c.source ≡ running → Step c (apply c next)
  breaks : c.source ≡ running → Step c (stream_failed c)
  retries :
      (token : Bool) → c.retry ≡ true → Step c (open_stream token (record c { retry = false }))
  ticks : c.poll_timer ≡ running → Step c (send_poll c)
  answers : (next : QueueState T) → 0 < c.in_flight → Step c (poll_answered c next)
  fails : (cause : PollError) → 0 < c.in_flight → Step c (poll_failed c cause)
  leaves : c.disposed ≡ false → Step c (dispose c)

pub data Reach {T : Type 0} (c : Connection T) : Connection T → Type 0 where
  here : Reach c c
  next : {d e : Connection T} → Reach c d → Step d e → Reach c e
