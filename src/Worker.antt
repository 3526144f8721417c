-- ===== src/Worker.antt =====
-- apps/worker/src/jobs.ts: the background jobs of one worker instance. Metrics and the log are left
-- out, and one operation reads one time.
pub mod Turns
pub mod Syncing
pub mod Admitting
pub mod Cleaning
pub mod Periodic
use antretix.Common.{ℕ, Option, List, [], ◌∷◌, ◌==◌, if◌then◌else◌}
use antretix.Core.Events.{EventMeta}

-- The instance, its Map from event identifiers to events, and when it last looked whether an event
-- is sold out.
pub record Worker : Type 0 where
  pub instance_id : ℕ
  pub events : List EventMeta
  pub last_sold_out_check : ℕ → Option ℕ

abbrev pub leader_ttl_ms : ℕ
leader_ttl_ms = 5000

abbrev pub sold_out_check_ms : ℕ
sold_out_check_ms = 3000

abbrev pub expiry_batch : ℕ
expiry_batch = 500

abbrev pub cleanup_batch : ℕ
cleanup_batch = 1000

-- Map.set: an event that is there keeps its turn.
abbrev pub set_event : EventMeta → List EventMeta → List EventMeta
set_event meta [] = meta ∷ []
set_event meta (m ∷ ms) = if m.event.id == meta.event.id then meta ∷ ms else m ∷ set_event meta ms
