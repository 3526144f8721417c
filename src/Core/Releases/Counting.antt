-- ===== src/Core/Releases/Counting.antt =====
-- Each order that the expiry batch counts was PENDING and is not any more.
use antretix.Common.{
  ℕ, suc, ◌+◌, ◌≤◌, ◌≡◌, ◌⊎◌, refl, sym, subst, Bool, some, List, [], ◌∷◌, map, find, arith, keep,
  length, Bool-cases, Option-cases, inl, inr,
}
use antretix.Shared.Constants.{pending}
use antretix.Shared.Errors.{Outcome, returned, thrown, failed}
use antretix.Shared.Policy.{same_status}
use antretix.Redis.{Redis}
use antretix.Database.Schema.{Order}
use antretix.Database.Settlement
use antretix.Database.Settlement.{
  ReleaseReason, ReleasedRow, is_pending, is_releasable, set_released, released_rows, goes_negative,
}
use antretix.Core.Context.{World}
use antretix.Core.Releases.{
  release_order, release_each, expire_due_orders, count_released, requires_expired, due_orders,
}

abbrev pub is_unpaid : Order → Bool
is_unpaid o = same_status o.status pending

-- How many orders are PENDING.
abbrev pub unpaid : List Order → ℕ
unpaid os = length (keep is_unpaid os)

unpaid-set_released-le :
    (order now : ℕ) (reason : ReleaseReason) (b : Bool) (os : List Order)
    → unpaid (map (set_released order reason b now) os) ≤ unpaid os
unpaid-set_released-le order now reason b [] = omega arith
unpaid-set_released-le order now reason b (o ∷ os) =
    ground (arith, unpaid-set_released-le order now reason b os)

unpaid-set_released :
    (order now : ℕ) (reason : ReleaseReason) (b : Bool) (os : List Order) (o : Order)
    → find (is_releasable order b now) os ≡ some o
    → suc (unpaid (map (set_released order reason b now) os)) ≤ unpaid os
unpaid-set_released order now reason b [] o f = cc
unpaid-set_released order now reason b (x ∷ os) o f =
    elim (Bool-cases (is_releasable order b now x)) [
      | inl found ↦ ground (arith, unpaid-set_released-le order now reason b os)
      | inr passed ↦ ground (arith, unpaid-set_released order now reason b os o)
    ]

-- The loop stops at an exception only.
failed_or_not :
    (outcome : Outcome Bool)
    → (outcome ≡ failed)
      ⊎ ((B : Type 0) (stop go : B) → (elim outcome [ failed ↦ stop | _ ↦ go ]) ≡ go)
failed_or_not failed = inl refl
failed_or_not (returned b) = inr (λ B stop go. refl)
failed_or_not (thrown e) = inr (λ B stop go. refl)

module _ (R : Redis) where
  -- What a release does to the number of PENDING orders.
  abbrev Counts : World R → ℕ → Outcome Bool × World R → Type 0
  Counts w n (outcome, w1) =
      count_released R outcome n + unpaid w1.db.orders ≤ n + unpaid w.db.orders

  release_order-Counts :
      (w : World R) (order : ℕ) (reason : ReleaseReason) (now n : ℕ)
      → Counts w n (release_order R w order reason now)
  unfolding release_order Settlement.release_order
  release_order-Counts w order reason now n =
      let b = requires_expired reason in
      elim (Option-cases (find (is_releasable order b now) w.db.orders)) [
        | inl absent ↦ rw (release_order, Settlement.release_order, absent) (omega arith)
        | inr (o, found) ↦ elim (Bool-cases (goes_negative order w.db.items w.db.categories)) [
          | inl raised ↦ rw (release_order, Settlement.release_order, found, raised) (omega arith)
          | inr fine ↦
              rw (release_order, Settlement.release_order, found, fine)
                (ground (arith, unpaid-set_released order now reason b w.db.orders o found))
        ]
      ]

  abbrev pub CountsAll : World R → ℕ → Outcome ℕ × World R → Type 0
  CountsAll w n (returned m, w1) = m + unpaid w1.db.orders ≤ n + unpaid w.db.orders
  CountsAll w n (thrown e, w1) = Unit
  CountsAll w n (failed, w1) = Unit

  pub CountsAll-trans :
      (w w1 : World R) (n k : ℕ) (result : Outcome ℕ × World R)
      → k + unpaid w1.db.orders ≤ n + unpaid w.db.orders
      → CountsAll w1 k result
      → CountsAll w n result
  CountsAll-trans w w1 n k (returned m, w2) h c = omega (arith, h, c)
  CountsAll-trans w w1 n k (thrown e, w2) h c = tt
  CountsAll-trans w w1 n k (failed, w2) h c = tt

  release_each-CountsAll :
      (os : List Order) (w : World R) (now n : ℕ) → CountsAll w n (release_each R w os now n)
  unfolding release_each
  release_each-CountsAll [] w now n = omega arith
  release_each-CountsAll (o ∷ os) w now n =
      let (outcome, w1) = release_order R w o.id ReleaseReason.expired now in
      let one = release_order-Counts w o.id ReleaseReason.expired now n in
      let rest = release_each-CountsAll os w1 now (count_released R outcome n) in
      let more =
        CountsAll-trans w w1 n (count_released R outcome n)
          (release_each R w1 os now (count_released R outcome n)) one rest in
      elim (failed_or_not outcome) [
        | inl raised ↦ rw (release_each, raised) tt
        | inr goes_on ↦
            subst (CountsAll w n)
              (sym (goes_on _ (failed, w1) (release_each R w1 os now (count_released R outcome n))))
              more
      ]

  -- A batch counts no more orders than stop being PENDING.
  pub expire_due_orders-CountsAll :
      (w : World R) (batch now : ℕ) → CountsAll w 0 (expire_due_orders R w batch now)
  unfolding expire_due_orders
  expire_due_orders-CountsAll w batch now =
      release_each-CountsAll (due_orders w.db batch now) w now 0
