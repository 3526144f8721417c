-- ===== src/Core/InStep.antt =====
-- The two layers against overselling together: the stock in Redis is what PostgreSQL has left. What
-- createOrder, releaseOrder, the expiry batch and handlePaymentNotification do to it, each while no
-- other request runs.
pub mod Placing
pub mod Ordering
pub mod Settling
pub mod Paying
pub mod Serving
pub mod Examples
use antretix.Common.{ℕ, ◌≡◌, Bool, true, not, ◌||◌, some, List, [], ◌∷◌, ◌==◌, All}
use antretix.Redis.{Redis}
use antretix.Database.Schema.{TicketCategory, Order, OrderItem}
use antretix.Database.Consistency.{IsConsistent}
use antretix.Lua.Stock.Exact.{stock_of}
use antretix.Core.Context.{World}
use antretix.Core.Reconcile.{db_available_of}

-- A category that an item names is one of the order's event.
abbrev pub belongs : OrderItem → Order → TicketCategory → Bool
belongs i o c = not (c.id == i.category_id) || (c.event_id == o.event_id)

-- Every order is for categories of its own event.
abbrev pub Placed : List TicketCategory → List Order → List OrderItem → Type 0
Placed cs [] items = Unit
Placed cs (o ∷ os) [] = Unit
Placed cs (o ∷ os) (i ∷ is) = All (λ c. belongs i o c ≡ true) cs × Placed cs os is

module _ (R : Redis) where
  open R use {Store}

  -- Every category has as much stock in Redis as PostgreSQL has left.
  abbrev pub Stocked : Store → List TicketCategory → Type 0
  Stocked s = All (λ c. stock_of R s c.event_id c.id ≡ some (db_available_of c))

  pub record IsInStep (w : World R) : Type 0 where
    pub consistent : IsConsistent w.db
    pub placed : Placed w.db.categories w.db.orders w.db.items
    pub stocked : Stocked w.redis w.db.categories
