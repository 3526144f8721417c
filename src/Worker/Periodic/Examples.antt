-- ===== src/Worker/Periodic/Examples.antt =====
-- The expiry job on stores in memory, and its theorem at a concrete input.
use antretix.Redis.Memory.{memory}
use antretix.Core.Releases.Examples.{world, world-IsConsistent}
use antretix.Worker.Periodic.{expiry_tick}
use antretix.Worker.Periodic.Emptying.{Empties, expiry_tick-Empties}

-- The order of two tickets is out of time.
expiry_tick-Empties_example : Empties memory world 700 0 (expiry_tick memory world 700)
expiry_tick-Empties_example = expiry_tick-Empties memory world 700 world-IsConsistent
