-- ===== src/Database/Schema.antt =====
-- packages/db/prisma/schema.prisma: the tables that the order functions read and write.
-- Identifiers, codes and names are opaque strings that are only compared: natural numbers here.
-- Integer columns are natural numbers, since the CHECK constraints of the first migration keep
-- them from going below 0. A time is in milliseconds.
use antretix.Common.{ℕ, Bool, Option, List}
use antretix.Shared.Constants.{OrderStatus}

pub data EventStatus : Type 0 where
  draft scheduled on_sale sold_out ended : EventStatus

-- A description or an address is a text that is passed on as it is.
pub record Event : Type 0 where
  pub id : ℕ
  pub name : ℕ
  pub venue : ℕ
  pub description : ℕ
  pub poster_url : ℕ
  pub starts_at : ℕ
  pub sale_opens_at : ℕ
  pub pre_queue_at : ℕ
  pub status : EventStatus
  pub admit_per_sec : ℕ
  pub max_active : ℕ
  pub max_per_user : ℕ

pub record TicketCategory : Type 0 where
  pub id : ℕ
  pub event_id : ℕ
  pub name : ℕ
  pub price : ℕ
  pub quota : ℕ
  pub sold : ℕ
  pub reserved : ℕ
  pub sort_order : ℕ

pub record Order : Type 0 where
  pub id : ℕ
  pub code : ℕ
  pub user_id : ℕ
  pub event_id : ℕ
  pub status : OrderStatus
  pub total_price : ℕ
  pub expires_at : ℕ
  pub idempotency_key : ℕ × ℕ  -- `{userId}:{key}`
  pub payment_ref : Option ℕ
  pub paid_at : Option ℕ
  pub refunded_at : Option ℕ
  pub created_at : ℕ

pub record OrderItem : Type 0 where
  pub id : ℕ
  pub order_id : ℕ
  pub category_id : ℕ
  pub qty : ℕ
  pub unit_price : ℕ

-- Its id, a UUID that PostgreSQL draws and nothing reads but to show it, is left out.
pub record Ticket : Type 0 where
  pub order_id : ℕ
  pub category_name : ℕ
  pub code : ℕ
  pub checked_in : Bool

-- The newest row of each table comes first.
pub record Database : Type 0 where
  pub events : List Event
  pub categories : List TicketCategory
  pub orders : List Order
  pub items : List OrderItem
  pub tickets : List Ticket
