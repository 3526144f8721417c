-- ===== src/Web/Connection/Watching.antt =====
-- useQueueState: a page that waits is always going to hear more, and one that has heard the end asks
-- for nothing any more, though the timer of a new attempt may still run.
use antretix.Common.{◌≤◌, ◌<◌, ◌≡◌, ◌⊎◌, refl, inl, inr, Bool, true, false, not, ◌&&◌, ◌||◌, arith}
use antretix.Web.Connection.{
  Handle, unset, running, closed, is_running, Connection, apply, open_stream, mount, stream_opened,
  stream_failed, dispose, poll_answered, poll_failed, Step, opens, sends, breaks, retries, ticks,
  answers, fails, leaves, Reach, here, next,
}

abbrev is_over : {T : Type 0} → Connection T → Bool
is_over c = c.finished || c.disposed

abbrev is_closed : Handle → Bool
is_closed closed = true
is_closed _ = false

-- Nothing runs once it is over; a new attempt waits only where no stream is open.
record IsSound {T : Type 0} (c : Connection T) : Type 0 where
  no_source : is_over c && is_running c.source ≡ false
  no_timer : is_over c && is_running c.poll_timer ≡ false
  no_retry : c.disposed && c.retry ≡ false
  alone : c.retry && is_running c.source ≡ false
  not_closed : (is_over c || not (is_closed c.poll_timer)) ≡ true

-- What a page listens to while it waits.
abbrev is_watching : {T : Type 0} → Connection T → Bool
is_watching c = is_over c || is_running c.source || is_running c.poll_timer

mount-is_watching :
    (T : Type 0) (event_source token : Bool)
    → (not event_source || token) ≡ true
    → is_watching (mount {T = T} event_source token) ≡ true
unfolding mount
mount-is_watching T true true h = refl
mount-is_watching T true false h = cc
mount-is_watching T false token h = ground arith

module _ {T : Type 0} where
  mount-IsSound : (event_source token : Bool) → IsSound (mount {T = T} event_source token)
  unfolding mount
  mount-IsSound true true = ground arith
  mount-IsSound true false = ground arith
  mount-IsSound false token = ground arith

  Step-IsSound : {c d : Connection T} → Step c d → IsSound c → IsSound d
  unfolding stream_opened apply stream_failed open_stream poll_answered poll_failed dispose
  Step-IsSound (opens o) v = ground arith
  Step-IsSound (sends s o) v = ground arith
  Step-IsSound (breaks o) v = ground arith
  Step-IsSound (retries token r) v = ground arith
  Step-IsSound (ticks t) v = ground arith
  Step-IsSound (answers s f) v = ground arith
  Step-IsSound (fails cause f) v = ground arith
  Step-IsSound (leaves d) v = ground arith

  Reach-IsSound : {c d : Connection T} → Reach c d → IsSound c → IsSound d
  Reach-IsSound here v = v
  Reach-IsSound (next r st) v = Step-IsSound st (Reach-IsSound r v)

  Step-is_watching :
      {c d : Connection T} → Step c d → IsSound c → is_watching c ≡ true → is_watching d ≡ true
  unfolding stream_opened apply stream_failed open_stream poll_answered poll_failed dispose
  Step-is_watching (opens o) v h = ground arith
  Step-is_watching (sends s o) v h = ground arith
  Step-is_watching (breaks o) v h = ground arith
  Step-is_watching (retries token r) v h = ground arith
  Step-is_watching (ticks t) v h = ground arith
  Step-is_watching (answers s f) v h = ground arith
  Step-is_watching (fails cause f) v h = ground arith
  Step-is_watching (leaves d) v h = ground arith

  Reach-is_watching :
      {c d : Connection T} → Reach c d → IsSound c → is_watching c ≡ true → is_watching d ≡ true
  Reach-is_watching here v h = h
  Reach-is_watching (next r st) v h =
      Step-is_watching st (Reach-IsSound r v) (Reach-is_watching r v h)

  watches :
      (c : Connection T)
      → is_watching c ≡ true
      → (c.finished ≡ true) ⊎ (c.disposed ≡ true) ⊎ (c.source ≡ running) ⊎ (c.poll_timer ≡ running)
  watches c h = by_flags c.finished c.disposed c.source c.poll_timer h
    where
      by_flags :
          (f d : Bool) (s p : Handle)
          → (f || d) || is_running s || is_running p ≡ true
          → (f ≡ true) ⊎ (d ≡ true) ⊎ (s ≡ running) ⊎ (p ≡ running)
      by_flags true d s p h = inl refl
      by_flags false true s p h = inr (inl refl)
      by_flags false false running p h = inr (inr (inl refl))
      by_flags false false unset running h = inr (inr (inr refl))
      by_flags false false closed running h = inr (inr (inr refl))
      by_flags false false unset unset h = cc
      by_flags false false unset closed h = cc
      by_flags false false closed unset h = cc
      by_flags false false closed closed h = cc

  -- From the start of the effect, in a browser without EventSource or with a login token: whatever
  -- the streams, the timers and the polls do, until the page has heard the end or is left, a stream
  -- is open or the timer of the polls runs.
  pub keeps_watching :
      (event_source token : Bool) (c : Connection T)
      → (not event_source || token) ≡ true
      → Reach (mount event_source token) c
      → (c.finished ≡ true) ⊎ (c.disposed ≡ true) ⊎ (c.source ≡ running) ⊎ (c.poll_timer ≡ running)
  keeps_watching event_source token c h r = watches c (
      Reach-is_watching r (mount-IsSound event_source token)
        (mount-is_watching T event_source token h))

  -- What follows the end: no stream, no polls, no new request, and nothing new is shown but by the
  -- answer to a request that was sent before. The timer of a new attempt is not stopped by the end,
  -- but none is started.
  abbrev pub Settles : Connection T → Connection T → Type 0
  Settles c d =
      (d.finished ≡ true)
      × (is_running d.source ≡ false)
      × (is_running d.poll_timer ≡ false)
      × ((d.retry ≡ false) ⊎ (c.retry ≡ true))
      × (d.in_flight ≤ c.in_flight)
      × ((d.state ≡ c.state) ⊎ (d.in_flight < c.in_flight))

  Step-Settles :
      (b : Connection T) {c d : Connection T} → Step c d → IsSound c → Settles b c → Settles b d
  unfolding stream_opened apply stream_failed open_stream poll_answered poll_failed dispose
  Step-Settles b (opens o) v h = ground arith
  Step-Settles b (sends s o) v h = ground arith
  Step-Settles b (breaks o) v h = ground arith
  Step-Settles b (retries token r) v h = ground arith
  Step-Settles b (ticks t) v h = ground arith
  Step-Settles b (answers s f) v h = ground arith
  Step-Settles b (fails cause f) v h = ground arith
  Step-Settles b (leaves d) v h = ground arith

  Reach-Settles : {c d : Connection T} → Reach c d → IsSound c → c.finished ≡ true → Settles c d
  Reach-Settles here v h = ground arith
  Reach-Settles {c} (next r st) v h = Step-Settles c st (Reach-IsSound r v) (Reach-Settles r v h)

  -- Once a page has heard that its user is let in, that the tickets are sold or that the user is not
  -- in the queue, whatever happens next: no stream is open and the timer of the polls does not run,
  -- the timer of a new attempt runs at most if it did then, no request is sent, and what is shown
  -- changes only by the answer to a request that was sent before.
  pub finished-Settles :
      (event_source token : Bool) (c d : Connection T)
      → Reach (mount event_source token) c
      → c.finished ≡ true
      → Reach c d
      → Settles c d
  finished-Settles event_source token c d r h later =
      Reach-Settles later (Reach-IsSound r (mount-IsSound event_source token)) h

  -- What a page that is left keeps.
  abbrev pub Stays : Connection T → Connection T → Type 0
  Stays c d =
      (d.disposed ≡ true)
      × (d.state ≡ c.state)
      × (d.mode ≡ c.mode)
      × (d.error ≡ c.error)
      × (d.stored_token ≡ c.stored_token)
      × (d.in_flight ≤ c.in_flight)

  Step-Stays :
      (b : Connection T) {c d : Connection T} → Step c d → IsSound c → Stays b c → Stays b d
  unfolding stream_opened apply stream_failed open_stream poll_answered poll_failed dispose
  Step-Stays b (opens o) v h = ground arith
  Step-Stays b (sends s o) v h = ground arith
  Step-Stays b (breaks o) v h = ground arith
  Step-Stays b (retries token r) v h = ground arith
  Step-Stays b (ticks t) v h = ground arith
  Step-Stays b (answers s f) v h = ground arith
  Step-Stays b (fails cause f) v h = ground arith
  Step-Stays b (leaves d) v h = ground arith

  Reach-Stays : {c d : Connection T} → Reach c d → IsSound c → c.disposed ≡ true → Stays c d
  Reach-Stays here v h = ground arith
  Reach-Stays {c} (next r st) v h = Step-Stays c st (Reach-IsSound r v) (Reach-Stays r v h)

  -- Once a page is left, what it showed, what it stored and what it sent stay, whatever answers
  -- come late.
  pub disposed-Stays :
      (event_source token : Bool) (c d : Connection T)
      → Reach (mount event_source token) c
      → c.disposed ≡ true
      → Reach c d
      → Stays c d
  disposed-Stays event_source token c d r h later =
      Reach-Stays later (Reach-IsSound r (mount-IsSound event_source token)) h
