-- ===== src/Database/Functions.antt =====
-- packages/db/prisma/migrations/20260925010000_order_functions/migration.sql: reserving an
-- order. The function is one statement, so one transaction: an exception (a CHECK or UNIQUE
-- constraint, or an integer out of range) undoes all of it.
use antretix.Common.{
  ℕ, ◌≡◌, refl, ◌⊎◌, inl, inr, ◌+◌, ◌*◌, Bool, not, ◌&&◌, ◌||◌, none, some, ◌∷◌, map, ltb, leb,
  ◌==◌, if◌then◌else◌, find, sum,
}
use antretix.Shared.Constants.{pending}
use antretix.Shared.Policy.{holds_tickets}
use antretix.Database.Schema.{TicketCategory, Order, OrderItem, Database}

-- A statement gives its result and the new tables, or raises and changes nothing.
pub data Sql (A : Type 0) : Type 0 where
  done : A → Database → Sql A
  exception : Sql A

pub Sql-cases :
    {A : Type 0} (s : Sql A) → (s ≡ exception) ⊎ ((a : A) × (db : Database) × (s ≡ done a db))
Sql-cases exception = inl refl
Sql-cases (done a db) = inr (a, db, refl)

pub data ReserveResult : Type 0 where
  ok limit_exceeded out_of_stock : ReserveResult

pub record ReserveArgs : Type 0 where
  pub order_id : ℕ
  pub code : ℕ
  pub user_id : ℕ
  pub event_id : ℕ
  pub category_id : ℕ
  pub qty : ℕ
  pub max_per_user : ℕ
  pub idempotency_key : ℕ × ℕ
  pub expires_at : ℕ
  pub item_id : ℕ
  pub now : ℕ

-- The rows of the join of OrderItem with Order on which the account's tickets are summed.
abbrev pub counts_for : ℕ → ℕ → OrderItem → Order → Bool
counts_for user event i o =
    (o.id == i.order_id) && (o.user_id == user) && (o.event_id == event) && holds_tickets o.status

-- SELECT COALESCE(SUM(oi.qty), 0) … JOIN "Order"
unfoldable pub held_by : Database → ℕ → ℕ → ℕ
unfolding holds_tickets
held_by db user event =
    sum (
      map (λ i. sum (map (λ o. if counts_for user event i o then i.qty else 0) db.orders)) db.items)

-- WHERE id = … AND "eventId" = … AND sold + reserved + qty <= quota
abbrev pub has_room : ReserveArgs → TicketCategory → Bool
has_room p c =
    (c.id == p.category_id)
    && (c.event_id == p.event_id)
    && leb (c.sold + c.reserved + p.qty) c.quota

abbrev pub hold : ReserveArgs → TicketCategory → TicketCategory
hold p c = if has_room p c then record c { reserved = c.reserved + p.qty } else c

abbrev pub same_key : ℕ × ℕ → ℕ × ℕ → Bool
same_key (u, k) (u', k') = (u == u') && (k == k')

-- An order that has the new row's id, code or idempotency key.
abbrev pub clashes : ReserveArgs → Order → Bool
clashes p o =
    (o.id == p.order_id) || (o.code == p.code) || same_key o.idempotency_key p.idempotency_key

abbrev pub new_order : ReserveArgs → ℕ → Order
new_order p price = record {
  id = p.order_id;
  code = p.code;
  user_id = p.user_id;
  event_id = p.event_id;
  status = pending;
  total_price = price * p.qty;
  expires_at = p.expires_at;
  idempotency_key = p.idempotency_key;
  payment_ref = none;
  paid_at = none;
  refunded_at = none;
  created_at = p.now;
}

abbrev pub new_item : ReserveArgs → ℕ → OrderItem
new_item p price = record {
  id = p.item_id;
  order_id = p.order_id;
  category_id = p.category_id;
  qty = p.qty;
  unit_price = price;
}

-- An integer holds less than 2 ^ 31: the sum of the tickets of a row raises beyond it.
abbrev pub overflows : ReserveArgs → TicketCategory → Bool
overflows p c =
    (c.id == p.category_id)
    && (c.event_id == p.event_id)
    && not (ltb (c.sold + c.reserved + p.qty) 2147483648)

abbrev pub same_item : ReserveArgs → OrderItem → Bool
same_item p i = i.id == p.item_id

-- The two INSERTs. The quantity has to be positive. Their foreign keys hold: the category is the row
-- that was updated, its event is that row's, the order was just inserted, and the account, which the
-- tables of the model leave out, is taken to be there.
insert_order : Database → ReserveArgs → ℕ → Sql ReserveResult
insert_order db p price = elim (find (clashes p) db.orders) [
  | some o ↦ exception
  | none ↦
      let saved : Sql ReserveResult = done ok (record db {
        categories = map (hold p) db.categories;
        orders = new_order p price ∷ db.orders;
        items = new_item p price ∷ db.items;
      }) in
      if ltb (price * p.qty) 2147483648 && ltb 0 p.qty
      then elim (find (same_item p) db.items) [ some i ↦ exception | none ↦ saved ]
      else exception
]

-- antretix_reserve_order
unfoldable pub reserve_order : Database → ReserveArgs → Sql ReserveResult
unfolding insert_order
reserve_order db p =
    let held = held_by db p.user_id p.event_id + p.qty in
    if not (ltb held 2147483648)
    then exception
    else if ltb p.max_per_user held
    then done limit_exceeded db
    else elim (find (overflows p) db.categories) [
      | some c ↦ exception
      | none ↦ elim (find (has_room p) db.categories) [
        | none ↦ done out_of_stock db
        | some c ↦ insert_order db p c.price
      ]
    ]
