-- ===== src/Worker/Periodic/Ending.antt =====
-- jobs.ts, expiryTick: the loop ends.
use antretix.Common.{
  Option, ℕ, zero, suc, ◌+◌, ◌≤◌, ◌<◌, ◌≡◌, refl, some, arith, ◌==◌, length, length-keep-le,
  Bool-cases, inl, inr,
}
use antretix.Shared.Errors.{Outcome, returned, thrown, failed}
use antretix.Redis.{Redis}
use antretix.Core.Context.{World}
use antretix.Core.Releases.{expire_due_orders}
use antretix.Core.Releases.Counting.{
  unpaid, is_unpaid, CountsAll, CountsAll-trans, expire_due_orders-CountsAll,
}
use antretix.Worker.{expiry_batch}
use antretix.Worker.Periodic.{expiry_rounds, expiry_tick}

module _ (R : Redis) where
  -- The loop ends, and counts no more orders than stop being PENDING.
  abbrev pub Ends : World R → ℕ → Option (Outcome ℕ × World R) → Type 0
  Ends w total result = (r : Outcome ℕ × World R) × (result ≡ some r) × CountsAll R w total r

  -- The tables after a batch.
  abbrev batched : World R → ℕ → World R
  batched w now = (expire_due_orders R w expiry_batch now).1

  round-Ends :
      (rounds : ℕ) (w : World R) (now total : ℕ) (outcome : Outcome ℕ)
      → (expire_due_orders R w expiry_batch now).0 ≡ outcome
      → CountsAll R w 0 (outcome, batched w now)
      → ((n : ℕ)
          → unpaid (batched w now).db.orders + expiry_batch ≤ unpaid w.db.orders
          → Ends (batched w now) n (expiry_rounds R rounds (batched w now) now n))
      → Ends w total (expiry_rounds R (suc rounds) w now total)
  unfolding expiry_rounds
  round-Ends rounds w now total (thrown e) batch counts more =
      ((thrown e, batched w now), rw (expiry_rounds, batch) refl, tt)
  round-Ends rounds w now total failed batch counts more =
      ((failed, batched w now), rw (expiry_rounds, batch) refl, tt)
  round-Ends rounds w now total (returned n) batch counts more =
      let w1 = batched w now in
      elim (Bool-cases (n == expiry_batch)) [
        | inl full ↦
            let fewer : unpaid w1.db.orders + expiry_batch ≤ unpaid w.db.orders = ground arith in
            let (r, ends, counted) = more (total + n) fewer in
            (
              r,
              rw (expiry_rounds, batch, full) ends,
              CountsAll-trans R w w1 total (total + n) r (omega (arith, counts)) counted,
            )
        | inr last ↦ (
          (returned (total + n), w1),
          rw (expiry_rounds, batch, last) refl,
          omega (arith, counts),
        )
      ]

  expiry_rounds-Ends :
      (rounds : ℕ) (w : World R) (now total : ℕ)
      → unpaid w.db.orders < rounds
      → Ends w total (expiry_rounds R rounds w now total)
  expiry_rounds-Ends zero w now total few = absurd (omega (arith, few))
  expiry_rounds-Ends (suc rounds) w now total few =
      round-Ends rounds w now total (expire_due_orders R w expiry_batch now).0 refl
        (expire_due_orders-CountsAll R w expiry_batch now)
        (λ n less. expiry_rounds-Ends rounds (batched w now) now n (omega (arith, few, less)))

  -- Whatever the tables hold, the expiry job ends within its bound on the rounds: with an error, or
  -- with a number of released orders that is at most the number of orders that stopped being
  -- PENDING.
  pub expiry_tick-Ends : (w : World R) (now : ℕ) → Ends w 0 (expiry_tick R w now)
  unfolding expiry_tick
  expiry_tick-Ends w now =
      expiry_rounds-Ends (suc (length w.db.orders)) w now 0
        (omega (arith, length-keep-le is_unpaid w.db.orders))
