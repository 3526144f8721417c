-- ===== src/Core/Releases/Once.antt =====
-- An order is released once: the tickets go back to the stock by one caller only.
use antretix.Common.{
  ℕ, ◌≡◌, refl, subst, inl, inr, Bool, true, false, none, some, List, [], ◌∷◌, map, find, arith,
  ◌==◌, Bool-cases, Option-cases,
}
use antretix.Shared.Errors.{returned}
use antretix.Redis.{Redis}
use antretix.Database.Schema.{Order, OrderItem}
use antretix.Database.Settlement
use antretix.Database.Settlement.{
  ReleaseReason, ReleasedRow, is_releasable, set_released, released_rows,
}
use antretix.Database.Tally.{NoOrder, Paired}
use antretix.Database.Consistency.{IsConsistent}
use antretix.Database.Consistency.Settling.{release_order_total, released_database}
use antretix.Core.Context.{World}
use antretix.Core.Releases.{requires_expired, is_some_row, release_order, restock}

-- No order is releasable under an id that no order has.
none_releasable :
    (order : ℕ) (b b' : Bool) (reason : ReleaseReason) (now now' : ℕ) (os : List Order)
    → NoOrder order os
    → find (is_releasable order b' now') (map (set_released order reason b now) os) ≡ none
none_releasable order b b' reason now now' [] n = refl
none_releasable order b b' reason now now' (o ∷ os) n =
    ground (arith, none_releasable order b b' reason now now' os n.1)

id_elsewhere :
    (order k : ℕ) (b : Bool) (now : ℕ) (os : List Order) (o : Order)
    → NoOrder k os
    → find (is_releasable order b now) os ≡ some o
    → (k == order) ≡ false
id_elsewhere order k b now [] o n f = cc
id_elsewhere order k b now (x ∷ os) o n f = elim (Bool-cases (is_releasable order b now x)) [
  | inl found ↦ ground arith
  | inr passed ↦ id_elsewhere order k b now os o n.1 (ground arith)
]

-- Once one is released, none is left under its id.
released_once :
    (order : ℕ) (b b' : Bool) (reason : ReleaseReason) (now now' : ℕ) (os : List Order)
    (is : List OrderItem) (o : Order)
    → Paired os is
    → find (is_releasable order b now) os ≡ some o
    → find (is_releasable order b' now') (map (set_released order reason b now) os) ≡ none
released_once order b b' reason now now' [] is o p f = cc
released_once order b b' reason now now' (x ∷ os) [] o p f = absurd p
released_once order b b' reason now now' (x ∷ os) (i ∷ is) o p f =
    elim (Bool-cases (is_releasable order b now x)) [
      | inl found ↦
          let same : x.id ≡ order = ground arith in
          let rest =
            none_releasable order b b' reason now now' os (subst (λ k. NoOrder k os) same p.2) in
          ground arith
      | inr passed ↦
          let later : find (is_releasable order b now) os ≡ some o = ground arith in
          let other = id_elsewhere order x.id b now os o p.2 later in
          let rest = released_once order b b' reason now now' os is o p.3 later in ground arith
    ]

module _ (R : Redis) where
  -- Releasing finds nothing to release.
  pub release_order_idle :
      (w : World R) (order : ℕ) (reason : ReleaseReason) (now : ℕ)
      → find (is_releasable order (requires_expired reason) now) w.db.orders ≡ none
      → release_order R w order reason now ≡ (returned false, w)
  unfolding release_order Settlement.release_order restock
  release_order_idle w order reason now e = ground arith

  pub release_order_wins :
      (w : World R) (order : ℕ) (reason : ReleaseReason) (now : ℕ) (o : Order)
      → IsConsistent w.db
      → find (is_releasable order (requires_expired reason) now) w.db.orders ≡ some o
      → let rows = released_rows order o w.db.items in
        release_order R w order reason now ≡ (
          returned (is_some_row rows),
          record w {
            redis = restock R w.redis rows;
            db = released_database w.db order reason (requires_expired reason) now;
          },
        )
  unfolding release_order
  release_order_wins w order reason now o v e =
      let total = release_order_total w.db order reason (requires_expired reason) now o v e in
      ground arith

  -- On consistent tables, when releasing an order succeeds, releasing it again, for whatever reason
  -- and at whatever time, answers false and changes neither PostgreSQL nor Redis: the tickets go
  -- back to the stock once.
  pub release_order_once :
      (w : World R) (order : ℕ) (reason reason' : ReleaseReason) (now now' : ℕ)
      → IsConsistent w.db
      → let (outcome, w1) = release_order R w order reason now in
        outcome ≡ returned true → release_order R w1 order reason' now' ≡ (returned false, w1)
  release_order_once w order reason reason' now now' v won =
      elim (Option-cases (find (is_releasable order (requires_expired reason) now) w.db.orders)) [
        | inl absent ↦ let e = release_order_idle w order reason now absent in ground arith
        | inr (o, found) ↦
            let e = release_order_wins w order reason now o v found in
            let gone =
              released_once order (requires_expired reason) (requires_expired reason') reason now
                now' w.db.orders w.db.items o v.paired found in
            rw e (release_order_idle _ order reason' now' gone)
      ]
