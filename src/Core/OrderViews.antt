-- ===== src/Core/OrderViews.antt =====
-- packages/core/src/orders.ts: what the API shows of an order.
use antretix.Common.{
  ℕ, Bool, Option, none, some, List, [], ◌∷◌, map, leb, ◌==◌, if◌then◌else◌, find, keep, take,
}
use antretix.Shared.Constants.{OrderStatus}
use antretix.Database.Schema.{Order, OrderItem, Ticket, Database}
use antretix.Database.Functions.{same_key}

-- A foreign key promises that the named row is there.
pub record ItemView : Type 0 where
  pub category_id : ℕ
  pub category_name : Option ℕ
  pub qty : ℕ
  pub unit_price : ℕ

pub record TicketView : Type 0 where
  pub code : ℕ
  pub category_name : ℕ
  pub checked_in : Bool

pub record OrderView : Type 0 where
  pub id : ℕ
  pub code : ℕ
  pub event_id : ℕ
  pub event_name : Option ℕ
  pub status : OrderStatus
  pub total_price : ℕ
  pub expires_at : ℕ
  pub paid_at : Option ℕ
  pub created_at : ℕ
  pub server_time : ℕ
  pub items : List ItemView
  pub tickets : List TicketView

event_name_of : Database → ℕ → Option ℕ
event_name_of db event = elim (find (λ e. e.id == event) db.events) [
  | none ↦ none
  | some e ↦ some e.name
]

category_name_of : Database → ℕ → Option ℕ
category_name_of db category = elim (find (λ c. c.id == category) db.categories) [
  | none ↦ none
  | some c ↦ some c.name
]

item_view : Database → OrderItem → ItemView
unfolding category_name_of
item_view db i = record {
  category_id = i.category_id;
  category_name = category_name_of db i.category_id;
  qty = i.qty;
  unit_price = i.unit_price;
}

ticket_view : Ticket → TicketView
ticket_view t = record { code = t.code; category_name = t.category_name; checked_in = t.checked_in }

-- orderBy: { code: "asc" }
insert_ticket : Ticket → List Ticket → List Ticket
insert_ticket t [] = t ∷ []
insert_ticket t (u ∷ us) = if leb t.code u.code then t ∷ u ∷ us else u ∷ insert_ticket t us

by_code : List Ticket → List Ticket
unfolding insert_ticket
by_code [] = []
by_code (t ∷ ts) = insert_ticket t (by_code ts)

-- toOrderView of the order with the rows that `orderInclude` joins.
unfoldable pub to_order_view : Database → Order → ℕ → OrderView
unfolding event_name_of item_view ticket_view by_code
to_order_view db o now = record {
  id = o.id;
  code = o.code;
  event_id = o.event_id;
  event_name = event_name_of db o.event_id;
  status = o.status;
  total_price = o.total_price;
  expires_at = o.expires_at;
  paid_at = o.paid_at;
  created_at = o.created_at;
  server_time = now;
  items = map (item_view db) (keep (λ i. i.order_id == o.id) db.items);
  tickets = map ticket_view (by_code (keep (λ t. t.order_id == o.id) db.tickets));
}

-- getOrderView, with the user it belongs to.
unfoldable pub get_order_view : Database → ℕ → ℕ → Option (OrderView × ℕ)
get_order_view db order now = elim (find (λ o. o.id == order) db.orders) [
  | none ↦ none
  | some o ↦ some (to_order_view db o now, o.user_id)
]

-- orderBy: { createdAt: "desc" }
insert_order : Order → List Order → List Order
insert_order o [] = o ∷ []
insert_order o (p ∷ ps) =
    if leb p.created_at o.created_at then o ∷ p ∷ ps else p ∷ insert_order o ps

newest_first : List Order → List Order
unfolding insert_order
newest_first [] = []
newest_first (o ∷ os) = insert_order o (newest_first os)

unfoldable pub list_user_orders : Database → ℕ → ℕ → List OrderView
unfolding newest_first
list_user_orders db user now =
    map (λ o. to_order_view db o now)
      (take 50 (newest_first (keep (λ o. o.user_id == user) db.orders)))

-- `{userId}:{key}`; a user's id has no colon.
abbrev pub scoped_idempotency_key : ℕ → ℕ → ℕ × ℕ
scoped_idempotency_key user key = (user, key)

unfoldable pub find_by_idempotency_key : Database → ℕ → ℕ → ℕ → Option OrderView
find_by_idempotency_key db user key now =
    elim (find (λ o. same_key o.idempotency_key (scoped_idempotency_key user key)) db.orders) [
      | none ↦ none
      | some o ↦ some (to_order_view db o now)
    ]
