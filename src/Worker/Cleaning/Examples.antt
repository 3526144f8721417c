-- ===== src/Worker/Cleaning/Examples.antt =====
-- The jobs on stores in memory, and the theorems on them at concrete inputs.
use antretix.Common.{ℕ, ◌≡◌, some, arith}
use antretix.Redis.Memory.{Table, memory}
use antretix.Lua.Status.Examples.{crowd}
use antretix.Worker.Cleaning.{cleanup_event}
use antretix.Worker.Cleaning.Silent.{Swept, cleanup_event_result}

cleanup_event_result_example :
    (r : ℕ × Table) × (cleanup_event memory crowd 1 300 ≡ some r) × Swept memory crowd 1 300 r
cleanup_event_result_example = cleanup_event_result memory crowd 1 300 (ground arith)
