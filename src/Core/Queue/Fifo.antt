-- ===== src/Core/Queue/Fifo.antt =====
-- While the sale is open, joining, the ticks and leaving make the waiting room a line: newcomers go
-- to the end, and only the front is served.
use antretix.Common.{ℕ, ◌<◌, ◌≡◌, refl, ◌∙◌, ap, List, [], ◌∷◌}
use antretix.Redis.{Redis, Member}
use antretix.Lua.Queue.Joining.{queue_of}
use antretix.Lua.Queue.Line.{line_of}
use antretix.Core.Queue.Moving.{RoomCall, answer, IsOpenRoom, moved_line, answer-Simulates}

module _ (R : Redis) where
  open R use {Store}

  -- Calls with the times at which they come.
  unfoldable pub answer_all : Store → ℕ → List (ℕ × RoomCall) → Store
  unfolding answer
  answer_all s e [] = s
  answer_all s e ((now, call) ∷ calls) = answer_all (answer R s e now call) e calls

  -- Each call comes in a later millisecond than the one before it.
  abbrev pub IsTimed : ℕ → List (ℕ × RoomCall) → Type 0
  IsTimed t [] = Unit
  IsTimed t ((now, call) ∷ calls) = (t < now) × IsTimed now calls

  -- A line through the calls, each with the sessions and the stock that it finds.
  pub line_after : Store → ℕ → List (ℕ × RoomCall) → List Member → List Member
  line_after s e [] line = line
  line_after s e ((now, call) ∷ calls) line =
      line_after (answer R s e now call) e calls (moved_line R s e now call line)

  -- Calls of whatever accounts and of the worker, each in a later millisecond than the one before,
  -- on a room whose sale is open and whose queue is ordered and holds nobody from a later time: the
  -- members of the queue, from the front, are those of a line that moves with each call: a join
  -- puts a newcomer without a session at the end and leaves everybody else where they are, a tick
  -- takes from the front as many as the rate, the free sessions and the stock allow, and a leave
  -- takes out that account.
  pub answer_all-line_after :
      (calls : List (ℕ × RoomCall)) (s : Store) (e t : ℕ)
      → IsOpenRoom R s e t
      → IsTimed t calls
      → line_of (queue_of R (answer_all s e calls) e)
        ≡ line_after s e calls (line_of (queue_of R s e))
  unfolding answer_all line_after
  answer_all-line_after [] s e t room timed = refl
  answer_all-line_after ((now, call) ∷ calls) s e t room (later, timed) =
      let (first, next) = answer-Simulates R s e t now call later room in
      answer_all-line_after calls (answer R s e now call) e now next timed
      ∙ ap (line_after (answer R s e now call) e calls) first
