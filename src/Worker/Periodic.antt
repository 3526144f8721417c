-- ===== src/Worker/Periodic.antt =====
-- jobs.ts, expiryTick and reconcileTick.
pub mod Ending
pub mod Emptying
pub mod Examples
use antretix.Common.{
  ℕ, zero, suc, ◌+◌, Option, none, some, List, [], ◌∷◌, ◌==◌, if◌then◌else◌, length,
}
use antretix.Shared.Errors.{Outcome, returned, thrown, failed}
use antretix.Redis.{Redis}
use antretix.Core.Context.{World}
use antretix.Core.Events.{EventMeta}
use antretix.Core.Releases.{expire_due_orders}
use antretix.Core.Reconcile.{reconcile_stock}
use antretix.Worker.{expiry_batch}

module _ (R : Redis) where
  -- The do loop with a bound on its rounds; an exception ends the job.
  unfoldable pub expiry_rounds : ℕ → World R → ℕ → ℕ → Option (Outcome ℕ × World R)
  expiry_rounds zero w now total = none
  expiry_rounds (suc rounds) w now total =
      let (outcome, w1) = expire_due_orders R w expiry_batch now in
      elim outcome [
        | returned batch ↦
            let rest = expiry_rounds rounds w1 now (total + batch) in
            if batch == expiry_batch then rest else some (returned (total + batch), w1)
        | thrown e ↦ some (thrown e, w1)
        | failed ↦ some (failed, w1)
      ]

  -- One round more than there are orders.
  unfoldable pub expiry_tick : World R → ℕ → Option (Outcome ℕ × World R)
  unfolding expiry_rounds
  expiry_tick w now = expiry_rounds (suc (length w.db.orders)) w now 0

  unfoldable pub reconcile_tick : World R → List EventMeta → World R
  reconcile_tick w [] = w
  reconcile_tick w (meta ∷ metas) =
      let (rows, s1) = reconcile_stock R w.redis w.db meta.event.id in
      reconcile_tick (record w { redis = s1 }) metas
