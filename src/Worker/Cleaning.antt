-- ===== src/Worker/Cleaning.antt =====
-- jobs.ts, cleanupTick: cleanup.lua again and again, until a batch is not full.
pub mod Silent
pub mod Examples
use antretix.Common.{
  ℕ, zero, suc, ◌+◌, ◌-◌, Bool, Option, none, some, List, [], ◌∷◌, ◌==◌, if◌then◌else◌, length,
  ◌>>=◌,
}
use antretix.Shared.Keys
use antretix.Redis.{Redis}
use antretix.Lua.Queue.{cleanup}
use antretix.Core.Context.{CoreSettings}
use antretix.Core.Events.{EventMeta}
use antretix.Worker.{cleanup_batch}

module _ (R : Redis) where
  open R use {Store, slot}

  abbrev add_batch : ℕ → Option (ℕ × Store) → Option (ℕ × Store)
  add_batch batch none = none
  add_batch batch (some (removed, s)) = some (batch + removed, s)

  -- The do loop for one event, with a bound on its rounds: how many it removed.
  unfoldable pub cleanup_rounds : ℕ → Store → ℕ → ℕ → Option (ℕ × Store)
  cleanup_rounds zero s event cutoff = none
  cleanup_rounds (suc rounds) s event cutoff =
      let (batch, s1) = cleanup R s event cutoff cleanup_batch in
      let rest = cleanup_rounds rounds s1 event cutoff in
      if batch == cleanup_batch then add_batch batch rest else some (batch, s1)

  -- One round more than there are heartbeats.
  unfoldable pub cleanup_event : Store → ℕ → ℕ → Option (ℕ × Store)
  unfolding cleanup_rounds
  cleanup_event s event cutoff =
      cleanup_rounds (suc (length (slot s (Keys.heartbeat event)).zset)) s event cutoff

  cleanup_each : Store → List EventMeta → ℕ → Option Store
  unfolding cleanup_event
  cleanup_each s [] cutoff = some s
  cleanup_each s (meta ∷ metas) cutoff = do
    swept ← cleanup_event s meta.event.id cutoff
    cleanup_each swept.1 metas cutoff

  unfoldable pub cleanup_tick : CoreSettings → Store → List EventMeta → ℕ → Option Store
  unfolding cleanup_each
  cleanup_tick settings s metas now = cleanup_each s metas (now - settings.heartbeat_timeout_ms)
