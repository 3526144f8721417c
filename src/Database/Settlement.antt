-- ===== src/Database/Settlement.antt =====
-- packages/db/prisma/migrations/20260925010000_order_functions/migration.sql: paying and releasing an
-- order. An exception (a CHECK, UNIQUE or NOT NULL constraint) undoes the whole statement.
use antretix.Common.{
  ℕ, ◌+◌, ◌-◌, Bool, true, false, not, ◌&&◌, ◌||◌, Option, none, some, List, [], ◌∷◌, ◌++◌, map,
  ltb, ◌==◌, if◌then◌else◌, find, replicate,
}
use antretix.Shared.Constants.{OrderStatus, pending, paid}
use antretix.Shared.Policy.{same_status}
use antretix.Database.Schema.{TicketCategory, Order, OrderItem, Ticket, Database}
use antretix.Database.Functions.{Sql, done, exception}

-- The order, if it is PENDING: what the first UPDATE of the other two functions finds.
abbrev pub is_pending : ℕ → Order → Bool
is_pending order o = (o.id == order) && same_status o.status pending

abbrev pub set_paid : ℕ → ℕ → ℕ → Order → Order
set_paid order ref now o =
    if is_pending order o
    then record o { status = paid; paid_at = some now; payment_ref = some ref }
    else o

-- UPDATE "TicketCategory" … FROM "OrderItem": a row is updated once, by an item of the order.
abbrev pub of_order : ℕ → TicketCategory → OrderItem → Bool
of_order order c i = (i.order_id == order) && (c.id == i.category_id)

abbrev pub take_qty :
    (ℕ → TicketCategory → TicketCategory) → Option OrderItem → TicketCategory → TicketCategory
take_qty f none c = c
take_qty f (some i) c = f i.qty c

abbrev pub sell_row : ℕ → TicketCategory → TicketCategory
sell_row qty c = record c { reserved = c.reserved - qty; sold = c.sold + qty }

abbrev pub free_row : ℕ → TicketCategory → TicketCategory
free_row qty c = record c { reserved = c.reserved - qty }

abbrev pub update_rows :
    (ℕ → TicketCategory → TicketCategory)
    → ℕ
    → List OrderItem
    → List TicketCategory
    → List TicketCategory
update_rows f order items = map (λ c. take_qty f (find (of_order order c) items) c)

-- CHECK (reserved >= 0): some row would go below 0.
abbrev pub qty_of : Option OrderItem → ℕ
qty_of none = 0
qty_of (some i) = i.qty

abbrev pub goes_negative : ℕ → List OrderItem → List TicketCategory → Bool
goes_negative order items [] = false
goes_negative order items (c ∷ cs) =
    ltb c.reserved (qty_of (find (of_order order c) items)) || goes_negative order items cs

-- One category name for each ticket of the order: OrderItem joined with TicketCategory and with
-- generate_series(1, oi.qty).
category_names : Option TicketCategory → ℕ → List ℕ
category_names none qty = []
category_names (some c) qty = replicate qty c.name

pub ticket_names : ℕ → List TicketCategory → List OrderItem → List ℕ
unfolding category_names
ticket_names order cs [] = []
ticket_names order cs (i ∷ is) =
    (if i.order_id == order
      then category_names (find (λ c. c.id == i.category_id) cs) i.qty
      else [])
    ++ ticket_names order cs is

abbrev cons_ticket : Ticket → Option (List Ticket) → Option (List Ticket)
cons_ticket t none = none
cons_ticket t (some ts) = some (t ∷ ts)

-- The n-th ticket gets p_codes[n], which must not be NULL.
pub with_codes : ℕ → List ℕ → List ℕ → Option (List Ticket)
with_codes order [] codes = some []
with_codes order (name ∷ names) [] = none
with_codes order (name ∷ names) (code ∷ codes) =
    cons_ticket (record { order_id = order; category_name = name; code = code; checked_in = false })
      (with_codes order names codes)

-- UNIQUE (code), for tickets inserted one after another.
abbrev code_taken : ℕ → List Ticket → Bool
code_taken code [] = false
code_taken code (t ∷ ts) = (t.code == code) || code_taken code ts

insert_tickets : List Ticket → List Ticket → Option (List Ticket)
insert_tickets [] old = some old
insert_tickets (t ∷ ts) old = elim (insert_tickets ts old) [
  | none ↦ none
  | some all ↦ if code_taken t.code all then none else some (t ∷ all)
]

-- The tickets of the order with their codes, put into the table.
pub issue : Database → ℕ → List ℕ → Option (List Ticket)
unfolding ticket_names with_codes insert_tickets
issue db order codes = elim (with_codes order (ticket_names order db.categories db.items) codes) [
  | none ↦ none
  | some ts ↦ insert_tickets ts db.tickets
]

unfoldable pub settle : Database → ℕ → ℕ → ℕ → Option (List Ticket) → Sql Bool
settle db order ref now none = exception
settle db order ref now (some ts) =
    if goes_negative order db.items db.categories
    then exception
    else done true (record db {
      categories = update_rows sell_row order db.items db.categories;
      orders = map (set_paid order ref now) db.orders;
      tickets = ts;
    })

-- antretix_pay_order
unfoldable pub pay_order : Database → ℕ → ℕ → List ℕ → ℕ → Sql Bool
unfolding settle issue
pay_order db order ref codes now = elim (find (is_pending order) db.orders) [
  | none ↦ done false db
  | some o ↦ settle db order ref now (issue db order codes)
]

-- p_reason
pub data ReleaseReason : Type 0 where
  expired cancelled : ReleaseReason

abbrev pub reason_status : ReleaseReason → OrderStatus
reason_status ReleaseReason.expired = OrderStatus.expired
reason_status ReleaseReason.cancelled = OrderStatus.cancelled

pub record ReleasedRow : Type 0 where
  pub event_id : ℕ
  pub user_id : ℕ
  pub category_id : ℕ
  pub qty : ℕ

abbrev pub is_releasable : ℕ → Bool → ℕ → Order → Bool
is_releasable order require_expired now o =
    is_pending order o && (not require_expired || ltb o.expires_at now)

abbrev pub set_released : ℕ → ReleaseReason → Bool → ℕ → Order → Order
set_released order reason require_expired now o =
    if is_releasable order require_expired now o
    then record o { status = reason_status reason }
    else o

abbrev pub released_rows : ℕ → Order → List OrderItem → List ReleasedRow
released_rows order o [] = []
released_rows order o (i ∷ is) =
    if i.order_id == order
    then record {
      event_id = o.event_id;
      user_id = o.user_id;
      category_id = i.category_id;
      qty = i.qty;
    }
      ∷ released_rows order o is
    else released_rows order o is

-- antretix_release_order
unfoldable pub release_order : Database → ℕ → ReleaseReason → Bool → ℕ → Sql (List ReleasedRow)
release_order db order reason require_expired now =
    elim (find (is_releasable order require_expired now) db.orders) [
      | none ↦ done [] db
      | some o ↦
          if goes_negative order db.items db.categories
          then exception
          else done (released_rows order o db.items) (record db {
            categories = update_rows free_row order db.items db.categories;
            orders = map (set_released order reason require_expired now) db.orders;
          })
    ]
