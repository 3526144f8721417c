-- ===== src/Database/Consistency.antt =====
-- What the tables keep between two calls: no category is oversold, and its counters are the tickets
-- of its orders.
pub mod Reserving
pub mod Settling
pub mod Histories
pub mod Limits
use antretix.Common.{
  ℕ, ◌+◌, ◌-◌, ◌*◌, ◌≤◌, ◌<◌, ◌≡◌, ◌⊎◌, ◌≢◌, refl, sym, Bool, true, false, ◌&&◌, ◌||◌, inl, inr,
  Option, none, some, List, [], ◌∷◌, map, arith, ltb, ◌==◌, if◌then◌else◌, find, All, Bool-cases,
  Option-cases,
}
use antretix.Shared.Constants.{OrderStatus, pending, paid}
use antretix.Database.Schema.{TicketCategory, Order, OrderItem, Database}
use antretix.Database.Functions.{
  Sql, done, exception, ok, held_by, ReserveArgs, ReserveResult, has_room, hold, clashes, new_order,
  new_item, reserve_order,
}
use antretix.Database.Settlement.{
  ReleaseReason, ReleasedRow, reason_status, is_pending, is_releasable, set_paid, set_released,
  sell_row, free_row, update_rows, take_qty, of_order, goes_negative, pay_order, release_order,
}
use antretix.Database.Tally.{NoOrder, Paired, tally, order_qty, Paired-move, tally-move}

abbrev pub DistinctIds : List TicketCategory → Type 0
DistinctIds [] = Unit
DistinctIds (c ∷ cs) = All (λ d. (d.id == c.id) ≡ false) cs × DistinctIds cs

-- `sold` is the tickets of PAID orders, `reserved` those of PENDING ones, within the quota.
pub record Counted (orders : List Order) (items : List OrderItem) (c : TicketCategory)
    : Type 0 where
  pub sold_exact : c.sold ≡ tally paid c.id orders items
  pub reserved_exact : c.reserved ≡ tally pending c.id orders items
  pub within_quota : c.sold + c.reserved ≤ c.quota

pub record IsConsistent (db : Database) : Type 0 where
  pub paired : Paired db.orders db.items
  pub keyed : DistinctIds db.categories
  pub counted : All (Counted db.orders db.items) db.categories

-- The tables after a statement.
abbrev pub after : {A : Type 0} → Database → Sql A → Database
after db (done a db') = db'
after db exception = db

pub DistinctIds-map :
    (g : TicketCategory → TicketCategory)
    → ((c : TicketCategory) → (g c).id ≡ c.id)
    → (cs : List TicketCategory) → DistinctIds cs
    → DistinctIds (map g cs)
DistinctIds-map g same [] d = tt
DistinctIds-map g same (c ∷ cs) d = (others cs d.0, DistinctIds-map g same cs d.1)
  where
    others :
        (ds : List TicketCategory)
        → All (λ d. (d.id == c.id) ≡ false) ds
        → All (λ d. (d.id == (g c).id) ≡ false) (map g ds)
    others [] n = tt
    others (x ∷ ds) n = (rw (same x, same c) n.0, others ds n.1)
