-- ===== src/Core/Reconcile.antt =====
-- packages/core/src/reconcile.ts: bringing the stock in Redis back to what PostgreSQL has left.
-- PostgreSQL is read once; between the commands to Redis no other request is modelled.
pub mod Healing
pub mod Examples
use antretix.Common.{
  ℕ, Bool, true, false, ◌&&◌, Option, none, some, List, [], ◌∷◌, ◌==◌, if◌then◌else◌, keep,
}
use antretix.Common.Int.{ℤ, pos, ◌+ℤ◌, ◌-ℤ◌, eqb_ℤ, leb_ℤ}
use antretix.Shared.Keys
use antretix.Redis.{Redis, or_zero}
use antretix.Database.Schema.{TicketCategory, Database}
use antretix.Core.Events.{in_sale_order}

pub record ReconcileRow : Type 0 where
  pub event_id : ℕ
  pub category_id : ℕ
  pub category_name : ℕ
  pub db_available : ℤ
  pub redis_stock : ℤ
  pub diff : ℤ
  pub healed : Bool

-- The fields of the tracker.
abbrev pub diff_field : ℕ
diff_field = 0

abbrev pub runs_field : ℕ
runs_field = 1

abbrev pub db_available_of : TicketCategory → ℤ
db_available_of c = pos c.quota -ℤ pos c.sold -ℤ pos c.reserved

-- tracker.diff === String(diff)
abbrev pub is_same_diff : Option ℤ → ℤ → Bool
is_same_diff none diff = false
is_same_diff (some d) diff = eqb_ℤ d diff

module _ (R : Redis) where
  open R use {Store, slot, del, incrby, hset, pexpire}

  -- How often in a row the difference has now been seen.
  unfoldable pub runs_of : Store → ℕ → ℕ → ℤ → ℤ
  runs_of s event category diff =
      let tracker = slot s (Keys.reconcile_diff event category) in
      if is_same_diff (tracker.field diff_field) diff
      then or_zero (tracker.field runs_field) +ℤ pos 1
      else pos 1

  -- What becomes of the difference; HEAL_AFTER_RUNS is 3.
  unfoldable pub settle_diff : Store → ℕ → ℕ → ℤ → Bool × Store
  unfolding runs_of
  settle_diff s event category diff =
      let tracker = Keys.reconcile_diff event category in
      let runs = runs_of s event category diff in
      if eqb_ℤ diff (pos 0)
      then (false, del s tracker)
      else if leb_ℤ (pos 3) runs
      then (true, del (incrby s (Keys.stock event category) (pos 0 -ℤ diff)) tracker)
      else (
        false,
        pexpire (hset (hset s tracker diff_field diff) tracker runs_field runs) tracker 600000,
      )

  -- The body of the loop.
  unfoldable pub reconcile_category : Store → ℕ → TicketCategory → Option ReconcileRow × Store
  unfolding settle_diff
  reconcile_category s event c = elim (slot s (Keys.stock event c.id)).counter [
    | none ↦ (none, s)
    | some stock ↦
        let available = db_available_of c in
        let (healed, s1) = settle_diff s event c.id (stock -ℤ available) in
        (
          some (record {
            event_id = event;
            category_id = c.id;
            category_name = c.name;
            db_available = available;
            redis_stock = stock;
            diff = stock -ℤ available;
            healed = healed;
          }),
          s1,
        )
  ]

  abbrev add_row : Option ReconcileRow → List ReconcileRow → List ReconcileRow
  add_row none rows = rows
  add_row (some row) rows = row ∷ rows

  reconcile_each : Store → ℕ → List TicketCategory → List ReconcileRow × Store
  unfolding reconcile_category
  reconcile_each s event [] = ([], s)
  reconcile_each s event (c ∷ cs) =
      let (row, s1) = reconcile_category s event c in
      let (rows, s2) = reconcile_each s1 event cs in (add_row row rows, s2)

  unfoldable pub reconcile_stock : Store → Database → ℕ → List ReconcileRow × Store
  unfolding reconcile_each
  reconcile_stock s db event =
      reconcile_each s event (in_sale_order (keep (λ c. c.event_id == event) db.categories))
