-- ===== src/Lua/Status/Examples.antt =====
-- The status script on a store in memory, and its theorem at a concrete input.
use antretix.Common.{◌≡◌, refl, true, false, List, [], ◌∷◌, arith, if◌then◌else◌}
use antretix.Shared.Constants.{QueueStatus}
use antretix.Shared.Keys
use antretix.Shared.Keys.{Key, key_eq}
use antretix.Redis.{id, vacant, has}
use antretix.Redis.Memory.{Table, memory}
use antretix.Lua.Queue.{cleanup}
use antretix.Lua.Queue.Joining.{queue_of}
use antretix.Lua.Queue.Examples.{room, entry}
use antretix.Lua.Status.{status}
use antretix.Lua.Status.Alive.{status_keeps_place}

-- Accounts 11 and 12 wait, and both last asked at 300.
abbrev pub crowd : Table
crowd k =
    if key_eq (Keys.heartbeat 1) k
    then record vacant { zset = entry 11 300 ∷ entry 12 300 ∷ [] }
    else room QueueStatus.open_ k

abbrev one_key : List Key
one_key = Keys.stock 1 7 ∷ []

cleanup-silent :
    has (id 11) (
      queue_of memory
        (cleanup memory (status memory crowd 1 12 700 60000 one_key).1 1 500 1000).1
        1)
    ≡ false
unfolding cleanup status
cleanup-silent = refl

status_keeps_place_example :
    has (id 12) (
      queue_of memory
        (cleanup memory (status memory crowd 1 12 700 60000 one_key).1 1 500 1000).1
        1)
    ≡ true
status_keeps_place_example =
    status_keeps_place memory crowd 1 12 700 60000 500 1000 one_key refl refl (omega arith)
