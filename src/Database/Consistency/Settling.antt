-- ===== src/Database/Consistency/Settling.antt =====
-- antretix_pay_order and antretix_release_order keep the tables consistent.
use antretix.Common.{
  ℕ, ◌≡◌, ◌⊎◌, refl, Bool, true, false, inl, inr, some, List, [], ◌∷◌, map, arith, find, All,
  All-map, Bool-cases, Option-cases,
}
use antretix.Shared.Constants.{paid}
use antretix.Database.Schema.{TicketCategory, Order, OrderItem, Ticket, Database}
use antretix.Database.Functions.{done}
use antretix.Database.Settlement.{
  ReleaseReason, reason_status, is_pending, is_releasable, set_paid, set_released, issue,
  released_rows, sell_row, free_row, update_rows, take_qty, of_order, goes_negative, pay_order,
  release_order,
}
use antretix.Database.Tally.{Paired, Paired-move, tally-move}
use antretix.Database.Consistency.{Counted, IsConsistent, after, DistinctIds-map}

module _ (order : ℕ) (os : List Order) (is : List OrderItem) (o : Order) (p : Paired os is) where
  pay-Counted :
      (ref now : ℕ) (c : TicketCategory)
      → find (is_pending order) os ≡ some o
      → Counted os is c
      → Counted
          (map (set_paid order ref now) os)
          is
          (take_qty sell_row (find (of_order order c) is) c)
  pay-Counted ref now c f h =
      let (held, sold) =
        tally-move order paid (is_pending order) (set_paid order ref now) (λ x t. ground arith)
          (λ x t. ground arith) (λ x t. ground arith) c os is o (λ e. cc) p f in
      elim (Option-cases (find (of_order order c) is)) [
        | inl e ↦ rw e (ground arith)
        | inr (i, e) ↦ rw e (ground arith)
      ]

  release-Counted :
      (reason : ReleaseReason) (require_expired : Bool) (now : ℕ) (c : TicketCategory)
      → find (is_releasable order require_expired now) os ≡ some o
      → Counted os is c
      → Counted
          (map (set_released order reason require_expired now) os)
          is
          (take_qty free_row (find (of_order order c) is) c)
  release-Counted reason require_expired now c f h =
      let (held, sold) =
        tally-move order (reason_status reason) (is_releasable order require_expired now)
          (set_released order reason require_expired now) (λ x t. ground arith)
          (λ x t. ground arith) (λ x t. ground arith) c os is o (λ e. ground arith) p f in
      elim (Option-cases (find (of_order order c) is)) [
        | inl e ↦ rw e (ground arith)
        | inr (i, e) ↦ rw e (ground arith)
      ]

  -- The items of a PENDING order never take more from a row than it holds in reserve.
  pub never_negative :
      (cs : List TicketCategory)
      → find (is_pending order) os ≡ some o
      → All (Counted os is) cs
      → goes_negative order is cs ≡ false
  never_negative [] f h = refl
  never_negative (c ∷ cs) f h =
      let (held, sold) =
        tally-move order paid (is_pending order) (set_paid order 0 0) (λ x t. ground arith)
          (λ x t. ground arith) (λ x t. ground arith) c os is o (λ e. cc) p f in
      ground (arith, never_negative cs f h.1)

-- A releasable order is PENDING.
pub pending_of_releasable :
    (order : ℕ) (require_expired : Bool) (now : ℕ) (os : List Order) (o : Order)
    → find (is_releasable order require_expired now) os ≡ some o
    → (o' : Order) × (find (is_pending order) os ≡ some o')
pending_of_releasable order require_expired now [] o f = cc
pending_of_releasable order require_expired now (x ∷ os) o f =
    elim (Bool-cases (is_pending order x)) [
      | inl t ↦ (x, ground arith)
      | inr h ↦
          let (o', e) = pending_of_releasable order require_expired now os o (ground arith) in
          (o', ground arith)
    ]

-- The tables after an order is paid, with the tickets then issued.
abbrev pub paid_database : Database → ℕ → ℕ → ℕ → List Ticket → Database
paid_database db order ref now ts = record db {
  categories = update_rows sell_row order db.items db.categories;
  orders = map (set_paid order ref now) db.orders;
  tickets = ts;
}

abbrev pub released_database : Database → ℕ → ReleaseReason → Bool → ℕ → Database
released_database db order reason require_expired now = record db {
  categories = update_rows free_row order db.items db.categories;
  orders = map (set_released order reason require_expired now) db.orders;
}

-- A payment either changes nothing, or moves a PENDING order and issues its tickets.
pub pay_order_cases :
    (db : Database) (order ref : ℕ) (codes : List ℕ) (now : ℕ)
    → (after db (pay_order db order ref codes now) ≡ db)
      ⊎ ((o : Order) × (ts : List Ticket) × (find (is_pending order) db.orders ≡ some o)
          × (issue db order codes ≡ some ts)
          × (pay_order db order ref codes now ≡ done true (paid_database db order ref now ts)))
unfolding pay_order
pay_order_cases db order ref codes now = elim (Option-cases (find (is_pending order) db.orders)) [
  | inl e ↦ inl (ground arith)
  | inr (o, e) ↦ elim (Option-cases (issue db order codes)) [
    | inl f ↦ inl (ground arith)
    | inr (ts, f) ↦ elim (Bool-cases (goes_negative order db.items db.categories)) [
      | inl neg ↦ inl (ground arith)
      | inr fine ↦ inr (o, ts, e, f, ground arith)
    ]
  ]
]

-- A payment keeps the tables consistent, whatever it answers.
pub pay_order-IsConsistent :
    (db : Database) (order ref : ℕ) (codes : List ℕ) (now : ℕ)
    → IsConsistent db
    → IsConsistent (after db (pay_order db order ref codes now))
pay_order-IsConsistent db order ref codes now v = elim (pay_order_cases db order ref codes now) [
  | inl same ↦ rw same v
  | inr (o, ts, f, _, result) ↦ rw result (record {
    paired =
        Paired-move order paid (is_pending order) (set_paid order ref now) (λ x t. ground arith)
          (λ x t. ground arith) (λ x t. ground arith) db.orders db.items v.paired;
    keyed = DistinctIds-map _ (λ c. ground arith) db.categories v.keyed;
    counted =
        All-map _ _ _ (λ c. pay-Counted order db.orders db.items o v.paired ref now c f)
          db.categories v.counted;
  })
]

-- On consistent tables a release of an order that is PENDING and, if that is required, out of time
-- never raises: it moves the order and its counters and returns its items.
pub release_order_total :
    (db : Database) (order : ℕ) (reason : ReleaseReason) (require_expired : Bool) (now : ℕ)
    (o : Order)
    → IsConsistent db
    → find (is_releasable order require_expired now) db.orders ≡ some o
    → release_order db order reason require_expired now
      ≡ done
          (released_rows order o db.items)
          (released_database db order reason require_expired now)
unfolding release_order
release_order_total db order reason require_expired now o v f =
    let (o', e) = pending_of_releasable order require_expired now db.orders o f in
    ground (arith, never_negative order db.orders db.items o' v.paired db.categories e v.counted)

-- A release keeps the tables consistent, whatever it answers.
pub release_order-IsConsistent :
    (db : Database) (order : ℕ) (reason : ReleaseReason) (require_expired : Bool) (now : ℕ)
    → IsConsistent db
    → IsConsistent (after db (release_order db order reason require_expired now))
unfolding release_order
release_order-IsConsistent db order reason require_expired now v =
    elim (Option-cases (find (is_releasable order require_expired now) db.orders)) [
      | inl e ↦ rw (e, release_order) v
      | inr (o, f) ↦ rw (release_order_total db order reason require_expired now o v f) (record {
        paired =
            Paired-move order (reason_status reason) (is_releasable order require_expired now)
              (set_released order reason require_expired now) (λ x t. ground arith)
              (λ x t. ground arith) (λ x t. ground arith) db.orders db.items v.paired;
        keyed = DistinctIds-map _ (λ c. ground arith) db.categories v.keyed;
        counted =
            All-map _ _ _
              (λ c.
                release-Counted order db.orders db.items o v.paired reason require_expired now c f)
              db.categories v.counted;
      })
    ]
