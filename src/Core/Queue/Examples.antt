-- ===== src/Core/Queue/Examples.antt =====
-- The queue state on a store in memory, and its theorems at concrete inputs.
use antretix.Common.{
  List, arith, ◌∷◌, [], ℕ, ◌-◌, ◌*◌, ◌+◌, none, false, ◌≤◌, ◌<◌, ◌≡◌, refl, true, some, length,
}
use antretix.Common.Int.{◌+ℤ◌}
use antretix.Shared.Constants.{QueueStatus}
use antretix.Shared.Eta.{estimate_wait}
use antretix.Shared.Eta.Examples.{thousandths}
use antretix.Redis.{id, has, rank_of, above}
use antretix.Redis.Memory.{memory}
use antretix.Lua.Queue.{admit, stock_total}
use antretix.Lua.Queue.Joining.{queue_of}
use antretix.Lua.Queue.Admission.{active_of, places}
use antretix.Lua.Queue.Examples.{room}
use antretix.Lua.Status.{status}
use antretix.Core.Events.Examples.{meta}
use antretix.Core.Queue.{QueueTokenClaims, QueueState, waiting, get_queue_state, waiting_state}
use antretix.Lua.Queue.Line.{line_of}
use antretix.Core.Queue.Moving.{RoomCall, IsOpenRoom}
use antretix.Core.Queue.Fifo.{answer_all, line_after, answer_all-line_after}
use antretix.Core.Queue.Position.{IsTrue, get_queue_state_result, waiting_moves_up}

-- A signer that shows the account and the event.
abbrev sign : QueueTokenClaims → ℕ
sign claims = claims.user_id * 100 + claims.event_id

-- Account 12 is second in the queue.
abbrev told : QueueState ℕ
told = (get_queue_state thousandths memory sign (room QueueStatus.open_) meta 12 500).0

get_queue_state-second :
    told
    ≡ waiting (record {
      position = 2;
      ahead = 1;
      total = 2;
      eta = none;
      paused = false;
      stock_exhausted = false;
    })
unfolding get_queue_state waiting_state estimate_wait ◌+ℤ◌ status
get_queue_state-second = refl

get_queue_state_result_example :
    IsTrue thousandths memory sign (room QueueStatus.open_) meta 12 500 told
    × (queue_of memory
          (get_queue_state thousandths memory sign (room QueueStatus.open_) meta 12 500).1
          1
        ≡ queue_of memory (room QueueStatus.open_) 1)
get_queue_state_result_example =
    get_queue_state_result thousandths memory sign (room QueueStatus.open_) meta 12 500

waiting_moves_up_example :
    let s = room QueueStatus.open_ in
    let k =
      places 50 2
        (length (above 600 (active_of memory s 1)))
        (stock_total memory s meta.stock_keys) in
    let s' = (admit memory s 1 meta.stock_keys 600 50 2 900).1 in
    (1 < k → has (id 12) (active_of memory s' 1) ≡ true)
    × (k ≤ 1 → rank_of (id 12) (queue_of memory s' 1) ≡ some (1 - k))
waiting_moves_up_example =
    waiting_moves_up thousandths memory sign (room QueueStatus.open_) meta 12 500 600 50 2 900 _
      get_queue_state-second (refl, (refl, tt)) refl

-- Account 13 joins, two are let in, account 13 goes, account 14 joins.
abbrev calls : List (ℕ × RoomCall)
calls =
    (10, RoomCall.join_by 13 6)
    ∷ (11, RoomCall.tick 2 5 600 (7 ∷ []))
    ∷ (12, RoomCall.leave_by 13)
    ∷ (13, RoomCall.join_by 14 2)
    ∷ []

room-IsOpenRoom : IsOpenRoom memory (room QueueStatus.open_) 1 9
room-IsOpenRoom = record { is_open = refl; ordered = ground arith; past = ground arith }

answer_all-line_after_example :
    line_of (queue_of memory (answer_all memory (room QueueStatus.open_) 1 calls) 1)
    ≡ line_after memory (room QueueStatus.open_) 1 calls (id 11 ∷ id 12 ∷ [])
answer_all-line_after_example =
    answer_all-line_after memory calls (room QueueStatus.open_) 1 9 room-IsOpenRoom
      (omega arith, (omega arith, (omega arith, (omega arith, tt))))
