-- ===== src/Core/Releases.antt =====
-- packages/core/src/orders.ts: releasing an order, and the expiry job's batch. Between the statement
-- in PostgreSQL and the calls of release.lua no other request is modelled.
pub mod Once
pub mod Counting
pub mod Due
pub mod Sweeping
pub mod Examples
use antretix.Common.{
  ℕ, suc, Bool, true, false, ◌&&◌, List, [], ◌∷◌, ltb, leb, if◌then◌else◌, keep, take,
}
use antretix.Shared.Constants.{pending}
use antretix.Shared.Errors.{Outcome, returned, thrown, failed}
use antretix.Shared.Keys
use antretix.Shared.Policy.{same_status}
use antretix.Redis.{Redis}
use antretix.Database.Schema.{Order, Database}
use antretix.Database.Functions.{done, exception}
use antretix.Database.Settlement
use antretix.Database.Settlement.{ReleaseReason, ReleasedRow}
use antretix.Lua.Stock.{release}
use antretix.Core.Context.{World}

abbrev pub requires_expired : ReleaseReason → Bool
requires_expired ReleaseReason.expired = true
requires_expired ReleaseReason.cancelled = false

-- released.length > 0
abbrev pub is_some_row : List ReleasedRow → Bool
is_some_row [] = false
is_some_row (r ∷ rs) = true

-- orderBy: { expiresAt: "asc" }
pub insert_due : Order → List Order → List Order
insert_due o [] = o ∷ []
insert_due o (p ∷ ps) = if leb o.expires_at p.expires_at then o ∷ p ∷ ps else p ∷ insert_due o ps

pub by_expiry : List Order → List Order
unfolding insert_due
by_expiry [] = []
by_expiry (o ∷ os) = insert_due o (by_expiry os)

-- The orders of one batch.
unfoldable pub due_orders : Database → ℕ → ℕ → List Order
unfolding by_expiry
due_orders db batch now =
    take batch
      (by_expiry (keep (λ o. same_status o.status pending && ltb o.expires_at now) db.orders))

module _ (R : Redis) where
  open R use {Store}

  -- The loop over the released rows.
  unfoldable pub restock : Store → List ReleasedRow → Store
  restock s [] = s
  restock s (row ∷ rows) =
      restock
        (release R s (Keys.stock row.event_id row.category_id)
          (Keys.bought row.event_id row.user_id) row.qty).1
        rows

  unfoldable pub release_order : World R → ℕ → ReleaseReason → ℕ → Outcome Bool × World R
  unfolding restock
  release_order w order reason now =
      elim (Settlement.release_order w.db order reason (requires_expired reason) now) [
        | exception ↦ (failed, w)
        | done rows db ↦
            (returned (is_some_row rows), record w { redis = restock w.redis rows; db = db })
      ]

  abbrev pub count_released : Outcome Bool → ℕ → ℕ
  count_released (returned true) n = suc n
  count_released _ n = n

  -- The loop over the batch; an exception ends it.
  unfoldable pub release_each : World R → List Order → ℕ → ℕ → Outcome ℕ × World R
  unfolding release_order
  release_each w [] now n = (returned n, w)
  release_each w (o ∷ os) now n =
      let (outcome, w1) = release_order w o.id ReleaseReason.expired now in
      let rest = release_each w1 os now (count_released outcome n) in
      elim outcome [ failed ↦ (failed, w1) | _ ↦ rest ]

  unfoldable pub expire_due_orders : World R → ℕ → ℕ → Outcome ℕ × World R
  unfolding release_each
  expire_due_orders w batch now = release_each w (due_orders w.db batch now) now 0
