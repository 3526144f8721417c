-- ===== src/Lua/Queue/Examples.antt =====
-- The waiting room on a store in memory, and its theorems at concrete inputs.
use antretix.Common.{ℕ, ◌≡◌, refl, some, false, [], ◌∷◌, if◌then◌else◌}
use antretix.Common.Int.{pos, ◌+ℤ◌, ◌-ℤ◌}
use antretix.Shared.Constants.{QueueStatus}
use antretix.Shared.Keys
use antretix.Shared.Keys.{Key, key_eq}
use antretix.Redis.{Entry, id, queue_status, vacant, rank_of}
use antretix.Redis.Memory.{Table, memory}
use antretix.Lua.Queue.{join, admit, is_admitted, stock_total}
use antretix.Lua.Queue.Joining.{queue_of, join_again, IsJoinable, phase_of}
use antretix.Lua.Queue.Admission.{Admits, places, admit_result}

abbrev pub entry : ℕ → ℕ → Entry
entry user score = record { member = id user; score = score }

-- Event 1: accounts 11 and 12 queue by lot, account 20 has a session until 900 and account 21 had
-- one until 400, and three tickets of category 7 are left.
abbrev pub room : QueueStatus → Table
room status k =
    if key_eq (Keys.queue 1) k
    then record vacant { zset = entry 11 5 ∷ entry 12 8 ∷ [] }
    else if key_eq (Keys.active 1) k
    then record vacant { zset = entry 21 400 ∷ entry 20 900 ∷ [] }
    else if key_eq (Keys.status 1) k
    then record vacant { text = some (queue_status status) }
    else if key_eq (Keys.stock 1 7) k
    then record vacant { counter = some (pos 3) }
    else vacant

join-newcomer : (join memory (room QueueStatus.prequeue) 1 13 100 6).0.rank ≡ pos 1
unfolding join
join-newcomer = refl

join_again_example :
    let s = room QueueStatus.open_ in
    let (reply, s') = join memory s 1 12 700 6 in
    (queue_of memory s' 1 ≡ queue_of memory s 1)
    × (reply.added ≡ false)
    × (IsJoinable memory (phase_of memory s 1)
        → is_admitted memory s 1 12 ≡ false
        → (r : ℕ) × (rank_of (id 12) (queue_of memory s 1) ≡ some r) × (reply.rank ≡ pos r))
join_again_example = join_again memory (room QueueStatus.open_) 1 12 700 6 refl

admit-room :
    (admit memory (room QueueStatus.open_) 1 (Keys.stock 1 7 ∷ []) 500 50 2 600).0.admitted ≡ 1
unfolding admit ◌-ℤ◌ ◌+ℤ◌
admit-room = refl

admit_result_example :
    let s = room QueueStatus.open_ in
    Admits memory s 1 2 1
      (places 50 2 1 (stock_total memory s (Keys.stock 1 7 ∷ [])))
      (admit memory s 1 (Keys.stock 1 7 ∷ []) 500 50 2 600)
admit_result_example =
    admit_result memory (room QueueStatus.open_) 1 500 50 2 600 (Keys.stock 1 7 ∷ []) (refl, tt)
      refl
