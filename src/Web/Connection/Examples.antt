-- ===== src/Web/Connection/Examples.antt =====
-- A page whose stream breaks and comes back, and the theorems at it.
use antretix.Common.{ℕ, ◌≡◌, ◌⊎◌, refl, true, false, some, arith}
use antretix.Common.Int.{pos}
use antretix.Core.Queue.{waiting_room, admitted}
use antretix.Web.Connection.{
  running, Connection, apply, open_stream, mount, stream_failed, poll_answered, Reach, here, next,
  sends, breaks, retries, answers,
}
use antretix.Web.Connection.Watching.{Settles, keeps_watching, finished-Settles}

abbrev start : Connection ℕ
start = mount true true

-- The stream breaks, and a poll is sent; a new stream opens before it is answered.
abbrev back : Connection ℕ
back = open_stream true (record (stream_failed start) { retry = false })

abbrev told : Connection ℕ
told = apply back (admitted 5 (pos 900))

-- The answer to the poll is older than what the stream has told.
abbrev late : Connection ℕ
late = poll_answered told (waiting_room 2000)

start-told : Reach start told
unfolding mount stream_failed open_stream
start-told =
    next (next (next here (breaks refl)) (retries true refl)) (sends (admitted 5 (pos 900)) refl)

-- So the page shows an older state for good, though the token is stored.
late-state : (late.state ≡ some (waiting_room 2000)) × (late.stored_token ≡ some (5, pos 900))
unfolding mount stream_failed open_stream apply poll_answered
late-state = (refl, refl)

keeps_watching_example :
    (told.finished ≡ true)
    ⊎ (told.disposed ≡ true)
    ⊎ (told.source ≡ running)
    ⊎ (told.poll_timer ≡ running)
keeps_watching_example = keeps_watching true true told refl start-told

finished-Settles_example : Settles told late
unfolding mount stream_failed open_stream apply
finished-Settles_example =
    finished-Settles true true told late start-told refl
      (next here (answers (waiting_room 2000) (omega arith)))
