-- ===== src/Api/Routes/Stream/Examples.antt =====
-- A stream whose first push is slow, and the theorem at it.
use antretix.Common.{ℕ, ◌≤◌, ◌≡◌, ◌⊎◌, refl, true, false, not, [], ◌∷◌, arith}
use antretix.Common.Int.{pos}
use antretix.Core.Queue.{waiting_room, admitted}
use antretix.Api.Routes.Stream.{Stream, started, finish, push, pushed, here, next, ticks, answers}
use antretix.Api.Routes.Stream.Ending.{ends_once, has_ended, stream_ends}

-- The timer fires before the first push has its state; then both get theirs, the last a final one.
abbrev told : Stream ℕ
told = pushed (push started) (admitted 5 (pos 900))

abbrev late : Stream ℕ
late = pushed told (waiting_room 2000)

late-written : late.written ≡ admitted 5 (pos 900) ∷ []
unfolding push pushed finish
late-written = refl

stream_ends_example :
    (ends_once told.written ≡ true)
    × (told.timer ≡ not told.closed)
    × ((has_ended told.written ≡ false) ⊎ (told.closed ≡ true))
    × ((told.closed ≡ false)
        ⊎ (late.closed ≡ true) × (late.written ≡ told.written) × (late.pushes ≤ told.pushes))
unfolding push pushed finish
stream_ends_example =
    stream_ends told late
      (next (next here (ticks refl)) (answers (admitted 5 (pos 900)) (omega arith)))
      (next here (answers (waiting_room 2000) (omega arith)))
