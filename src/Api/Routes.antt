-- ===== src/Api/Routes.antt =====
-- apps/api/src/routes: what a handler checks before it calls packages/core, and what it answers.
-- EventMetaCache is a function from identifiers to the events that it gives.
pub mod Events
pub mod Administration
pub mod Orders
pub mod Waiting
pub mod Stream
pub mod Accounts
pub mod Examples
use antretix.Common.{ℕ, Option, none, some}
use antretix.Shared.Errors.{Outcome, returned, thrown, not_found}
use antretix.Database.Schema.{EventStatus}
use antretix.Core.Events.{EventMeta}

abbrev pub public_event : EventMeta → EventStatus → Outcome EventMeta
public_event meta EventStatus.draft = thrown not_found
public_event meta _ = returned meta

-- requireEvent: an event that is a draft is not found.
abbrev pub require_event : (ℕ → Option EventMeta) → ℕ → Outcome EventMeta
require_event events event_id = elim (events event_id) [
  | none ↦ thrown not_found
  | some meta ↦ public_event meta meta.event.status
]
