-- ===== src/Worker/Periodic/Emptying.antt =====
-- jobs.ts, expiryTick on consistent tables: no order that is due is left behind.
use antretix.Common.{
  ℕ, zero, if◌then◌else◌, suc, ◌+◌, ◌<◌, ◌≡◌, ◌∙◌, sym, ap, Option, some, map, min, arith, ◌==◌,
  length, length-keep-le, Bool-cases, inl, inr,
}
use antretix.Shared.Errors.{Outcome, returned, thrown, failed}
use antretix.Redis.{Redis}
use antretix.Database.Consistency.{IsConsistent}
use antretix.Core.Context.{World}
use antretix.Core.Releases.{expire_due_orders}
use antretix.Core.Releases.Due.{is_due, due, expire, expire_none}
use antretix.Core.Releases.Sweeping.{expire_due_orders-Sweeps}
use antretix.Worker.{expiry_batch}
use antretix.Worker.Periodic.{expiry_rounds, expiry_tick}

module _ (R : Redis) where
  -- The loop ends with the number of all orders that were due, counted on from `total`, and each of
  -- them is EXPIRED.
  pub record Empties (w : World R) (now total : ℕ) (result : Option (Outcome ℕ × World R))
      : Type 0 where
    pub world : World R
    pub answer : result ≡ some (returned (total + due now w.db.orders), world)
    pub orders : world.db.orders ≡ map (expire now) w.db.orders
    pub consistent : IsConsistent world.db

  one_round :
      (rounds : ℕ) (w w1 : World R) (now total count : ℕ)
      → expire_due_orders R w expiry_batch now ≡ (returned count, w1)
      → expiry_rounds R (suc rounds) w now total ≡ (
          if count == expiry_batch
          then expiry_rounds R rounds w1 now (total + count)
          else some (returned (total + count), w1))
  unfolding expiry_rounds
  one_round rounds w w1 now total count e = ap next_round e
    where
      next_round : Outcome ℕ × World R → Option (Outcome ℕ × World R)
      next_round (outcome, w2) = elim outcome [
        | returned batch ↦
            let rest = expiry_rounds R rounds w2 now (total + batch) in
            if batch == expiry_batch then rest else some (returned (total + batch), w2)
        | thrown e ↦ some (thrown e, w2)
        | failed ↦ some (failed, w2)
      ]

  expiry_rounds-Empties :
      (rounds : ℕ) (w : World R) (now total : ℕ)
      → IsConsistent w.db
      → due now w.db.orders < rounds
      → Empties w now total (expiry_rounds R rounds w now total)
  expiry_rounds-Empties zero w now total v few = absurd (omega (arith, few))
  expiry_rounds-Empties (suc rounds) w now total v few =
      let count = min expiry_batch (due now w.db.orders) in
      let batch = expire_due_orders-Sweeps R w expiry_batch now v in
      let w1 = batch.world in
      let one : expire_due_orders R w expiry_batch now ≡ (returned count, w1) =
        batch.answer ∙ ap (λ n. (returned n, w1)) (omega arith) in
      elim (Bool-cases (count == expiry_batch)) [
        | inl full ↦
            let left : due now w1.db.orders + expiry_batch ≡ due now w.db.orders =
              ground (arith, batch.left) in
            let later =
              expiry_rounds-Empties rounds w1 now (total + count) batch.consistent
                (omega (arith, few, left)) in
            record {
              world = later.world;
              answer =
                  one_round rounds w w1 now total count one
                  ∙ rw full (
                      later.answer
                      ∙ ap (λ n. some (returned n, later.world)) (omega (arith, left, batch.left)));
              orders = later.orders ∙ batch.orders;
              consistent = later.consistent;
            }
        | inr last ↦
            let none_left : due now w1.db.orders ≡ 0 = ground (arith, batch.left) in
            record {
              world = w1;
              answer =
                  one_round rounds w w1 now total count one
                  ∙ rw last
                      (ap (λ n. some (returned n, w1)) (omega (arith, none_left, batch.left)));
              orders = sym (expire_none now w1.db.orders none_left) ∙ batch.orders;
              consistent = batch.consistent;
            }
      ]

  -- On consistent tables the expiry job ends without an error, and answers the number of orders
  -- that were due: afterwards each of them is EXPIRED, no other order is changed, and the tables
  -- are consistent.
  pub expiry_tick-Empties :
      (w : World R) (now : ℕ) → IsConsistent w.db → Empties w now 0 (expiry_tick R w now)
  unfolding expiry_tick
  expiry_tick-Empties w now v =
      expiry_rounds-Empties (suc (length w.db.orders)) w now 0 v
        (omega (arith, length-keep-le (is_due now) w.db.orders))
