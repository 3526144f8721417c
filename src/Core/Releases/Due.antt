-- ===== src/Core/Releases/Due.antt =====
-- The orders that the expiry batch looks for: due_orders of packages/core/src/orders.ts.
use antretix.Common.{
  ℕ, suc, ◌≡◌, refl, subst, inl, inr, Bool, true, false, ◌&&◌, ◌||◌, some, List, [], ◌∷◌, map, find,
  arith, ltb, leb, ◌==◌, if◌then◌else◌, keep, take, length, All, All-keep, All-both, zero,
  Bool-cases,
}
use antretix.Shared.Constants.{OrderStatus, pending}
use antretix.Shared.Policy.{same_status}
use antretix.Database.Schema.{Order, OrderItem}
use antretix.Database.Settlement.{ReleaseReason, is_releasable, set_released, released_rows}
use antretix.Database.Tally.{NoOrder, Paired}
use antretix.Core.Releases.{is_some_row, insert_due, by_expiry}

-- PENDING and out of time.
abbrev pub is_due : ℕ → Order → Bool
is_due now o = same_status o.status pending && ltb o.expires_at now

-- How many orders are due.
abbrev pub due : ℕ → List Order → ℕ
due now os = length (keep (is_due now) os)

-- What the job means to do to an order.
abbrev pub expire : ℕ → Order → Order
expire now o = if is_due now o then record o { status = OrderStatus.expired } else o

-- A release under the id would find an order.
abbrev pub present : ℕ → ℕ → List Order → Bool
present now k [] = false
present now k (o ∷ os) = is_releasable k true now o || present now k os

-- The orders once the one with the id is released.
abbrev pub moved : ℕ → ℕ → List Order → List Order
moved now k = map (set_released k ReleaseReason.expired true now)

pub present_found :
    (now k : ℕ) (os : List Order)
    → present now k os ≡ true
    → (o : Order) × (find (is_releasable k true now) os ≡ some o)
present_found now k [] h = cc
present_found now k (o ∷ os) h = elim (Bool-cases (is_releasable k true now o)) [
  | inl t ↦ (o, ground arith)
  | inr f ↦ let (x, e) = present_found now k os (ground arith) in (x, ground arith)
]

pub present-moved :
    (now j k : ℕ) (os : List Order)
    → (j == k) ≡ false
    → present now j (moved now k os) ≡ present now j os
present-moved now j k [] n = refl
present-moved now j k (o ∷ os) n = ground (arith, present-moved now j k os n)

due-moved_ne : (now k : ℕ) (os : List Order) → NoOrder k os → due now (moved now k os) ≡ due now os
due-moved_ne now k [] n = refl
due-moved_ne now k (o ∷ os) n = ground (arith, due-moved_ne now k os n.1)

-- A release takes one order from those that are due.
pub due-moved :
    (now k : ℕ) (os : List Order) (is : List OrderItem) (o : Order)
    → Paired os is
    → find (is_releasable k true now) os ≡ some o
    → suc (due now (moved now k os)) ≡ due now os
due-moved now k [] is o p f = cc
due-moved now k (x ∷ os) [] o p f = absurd p
due-moved now k (x ∷ os) (i ∷ is) o p f = elim (Bool-cases (is_releasable k true now x)) [
  | inl found ↦
      let same : x.id ≡ k = ground arith in
      let rest = due-moved_ne now k os (subst (λ j. NoOrder j os) same p.2) in ground arith
  | inr passed ↦ ground (arith, due-moved now k os is o p.3)
]

pub expire-moved :
    (now k : ℕ) (os : List Order) → map (expire now) (moved now k os) ≡ map (expire now) os
expire-moved now k [] = refl
expire-moved now k (o ∷ os) = ground (arith, expire-moved now k os)

pub expire_none : (now : ℕ) (os : List Order) → due now os ≡ 0 → map (expire now) os ≡ os
expire_none now [] h = refl
expire_none now (o ∷ os) h = ground (arith, expire_none now os)

-- The order has an item, so that it returns a row.
pub released_row :
    (now k : ℕ) (os : List Order) (is : List OrderItem) (o y : Order)
    → Paired os is
    → find (is_releasable k true now) os ≡ some o
    → is_some_row (released_rows k y is) ≡ true
released_row now k [] is o y p f = cc
released_row now k (x ∷ os) [] o y p f = absurd p
released_row now k (x ∷ os) (i ∷ is) o y p f = elim (Bool-cases (i.order_id == k)) [
  | inl own ↦ ground arith
  | inr other ↦ ground (arith, released_row now k os is o y p.3)
]

-- No two orders have the same id.
abbrev pub Unique : List Order → Type 0
Unique [] = Unit
Unique (o ∷ os) = NoOrder o.id os × Unique os

module _ (P : Order → Type 0) where
  All-insert_due : (o : Order) (os : List Order) → P o → All P os → All P (insert_due o os)
  unfolding insert_due
  All-insert_due o [] h hs = (h, tt)
  All-insert_due o (p ∷ ps) h hs = elim (Bool-cases (leb o.expires_at p.expires_at)) [
    | inl first ↦ rw first (h, hs)
    | inr later ↦ rw later (hs.0, All-insert_due o ps h hs.1)
  ]

  pub All-by_expiry : (os : List Order) → All P os → All P (by_expiry os)
  unfolding by_expiry
  All-by_expiry [] h = tt
  All-by_expiry (o ∷ os) h = All-insert_due o (by_expiry os) h.0 (All-by_expiry os h.1)

  pub All-take : (n : ℕ) (os : List Order) → All P os → All P (take n os)
  All-take zero os h = tt
  All-take (suc n) [] h = tt
  All-take (suc n) (o ∷ os) h = (h.0, All-take n os h.1)

Unique-insert_due :
    (o : Order) (os : List Order) → NoOrder o.id os → Unique os → Unique (insert_due o os)
unfolding insert_due
Unique-insert_due o [] n u = (tt, tt)
Unique-insert_due o (p ∷ ps) n u = elim (Bool-cases (leb o.expires_at p.expires_at)) [
  | inl first ↦ rw first (n, u)
  | inr later ↦ rw later (
    All-insert_due (λ q. (q.id == p.id) ≡ false) o ps (ground arith) u.0,
    Unique-insert_due o ps n.1 u.1,
  )
]

pub Unique-by_expiry : (os : List Order) → Unique os → Unique (by_expiry os)
unfolding by_expiry
Unique-by_expiry [] u = tt
Unique-by_expiry (o ∷ os) u =
    Unique-insert_due o (by_expiry os) (All-by_expiry _ os u.0) (Unique-by_expiry os u.1)

pub Unique-take : (n : ℕ) (os : List Order) → Unique os → Unique (take n os)
Unique-take zero os u = tt
Unique-take (suc n) [] u = tt
Unique-take (suc n) (o ∷ os) u = (All-take _ n os u.0, Unique-take n os u.1)

pub Unique-keep :
    (p : Order → Bool) (os : List Order) (is : List OrderItem) → Paired os is → Unique (keep p os)
Unique-keep p [] is h = tt
Unique-keep p (o ∷ os) [] h = absurd h
Unique-keep p (o ∷ os) (i ∷ is) h = elim (Bool-cases (p o)) [
  | inl kept ↦ rw kept (All-keep _ _ p (λ q n. n) os h.2, Unique-keep p os is h.3)
  | inr gone ↦ rw gone (Unique-keep p os is h.3)
]

-- Every order that is due is there to be released.
pub present_due :
    (now : ℕ) (os : List Order) → All (λ o. present now o.id os ≡ true) (keep (is_due now) os)
present_due now [] = tt
present_due now (o ∷ os) =
    let before = present_due now os in
    let later =
      All-both _ _ (λ p. present now p.id (o ∷ os) ≡ true) (λ p h k. ground (arith, h))
        (keep (is_due now) os) before before in
    elim (Bool-cases (is_due now o)) [
      | inl hit ↦ rw hit (ground arith, later)
      | inr miss ↦ rw miss later
    ]

length-insert_due : (o : Order) (os : List Order) → length (insert_due o os) ≡ suc (length os)
unfolding insert_due
length-insert_due o [] = refl
length-insert_due o (p ∷ ps) = ground (arith, length-insert_due o ps)

pub length-by_expiry : (os : List Order) → length (by_expiry os) ≡ length os
unfolding by_expiry
length-by_expiry [] = refl
length-by_expiry (o ∷ os) = omega (arith, length-insert_due o (by_expiry os), length-by_expiry os)
