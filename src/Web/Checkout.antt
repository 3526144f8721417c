-- ===== src/Web/Checkout.antt =====
-- apps/web/app/events/[id]/checkout/page.tsx: choosing tickets and sending the order; and the
-- redirections of apps/web/components/QueueWatcher.tsx. A random key is drawn.
pub mod Resending
use antretix.Common.{
  ℕ, ◌+◌, ◌/◌, Bool, true, false, not, ◌&&◌, Option, none, some, List, find, ◌==◌, if◌then◌else◌,
  min,
}
use antretix.Common.Int.{ℤ, pos, pos_part, ◌-ℤ◌}
use antretix.Core.Queue.{
  QueueState, not_started, waiting_room, waiting, admitted, not_in_queue, sold_out_state,
}
use antretix.Api.Routes.Events.{CategoryView, StockView}
use antretix.Web.Client.{Fetched, got, refused, malformed}

-- Where a page of the queue sends its user.
pub data Page : Type 0 where
  event_page waiting_page queue_page checkout_page sold_out_page : Page

abbrev pub unless_there : Bool → Page → Option Page
unless_there true p = none
unless_there false p = some p

abbrev pub is_waiting_page : Page → Bool
is_waiting_page Page.waiting_page = true
is_waiting_page _ = false

abbrev pub is_queue_page : Page → Bool
is_queue_page Page.queue_page = true
is_queue_page _ = false

-- destination, for the page that asks.
unfoldable pub destination : {T : Type 0} → QueueState T → Page → Option Page
destination (admitted t e) current = some Page.checkout_page
destination sold_out_state current = some Page.sold_out_page
destination (not_in_queue q) current = some Page.event_page
destination (not_started p o) current = some Page.event_page
destination (waiting_room o) current = unless_there (is_waiting_page current) Page.waiting_page
destination (waiting w) current = unless_there (is_queue_page current) Page.queue_page

-- The state of the checkout page. An error is kept only as being there.
pub record Checkout : Type 0 where
  pub stock : Option StockView
  pub category_id : Option ℕ
  pub qty : ℕ
  pub failed_last : Bool
  pub busy : Bool
  pub idempotency_key : ℕ
  pub paying : Option ℕ  -- the order whose payment page was opened

abbrev pub find_category : List CategoryView → ℕ → Option CategoryView
find_category cs id = find (λ c. c.id == id) cs

abbrev pub category_in : Option StockView → Option ℕ → Option CategoryView
category_in none id = none
category_in (some stock) none = none
category_in (some stock) (some id) = find_category stock.categories id

abbrev pub selected : Checkout → Option CategoryView
selected c = category_in c.stock c.category_id

-- Math.max(0, maxPerUser - alreadyHeld)
abbrev pub allowance_of : Option StockView → ℕ
allowance_of none = 0
allowance_of (some stock) = pos_part (pos stock.max_per_user -ℤ stock.already_held)

abbrev pub least_of : ℕ → Option CategoryView → ℕ
least_of allowance none = allowance
least_of allowance (some c) = min allowance c.remaining

unfoldable pub max_qty : Checkout → ℕ
max_qty c = least_of (allowance_of c.stock) (selected c)

-- The radio button of a category.
abbrev pub choose : Checkout → ℕ → Checkout
choose c id = record c { category_id = some id; qty = 1 }

-- secondsUntil of apps/web/lib/clock.ts: Math.max(0, Math.ceil((time - now) / 1000))
abbrev pub seconds_until : ℤ → ℕ → ℕ
seconds_until time now = (pos_part (time -ℤ pos now) + 999) / 1000

abbrev pub session_left : Option StockView → ℕ → ℕ
session_left none now = 0
session_left (some stock) now = seconds_until stock.session_expires_at now

abbrev pub is_some_category : Option CategoryView → Bool
is_some_category none = false
is_some_category (some c) = true

-- The button of the form is not disabled.
unfoldable pub can_submit : Checkout → ℕ → Bool
unfolding max_qty
can_submit c now =
    not c.busy
    && is_some_category (selected c)
    && not (max_qty c == 0)
    && not (session_left c.stock now == 0)

-- The body and the header of POST /events/:id/orders.
pub record OrderCall : Type 0 where
  pub category : ℕ
  pub quantity : ℕ
  pub key : ℕ

-- submit, up to the response: nothing is sent without a category.
unfoldable pub submit : Checkout → Option OrderCall × Checkout
submit c = elim (selected c) [
  | none ↦ (none, c)
  | some category ↦ (
    some (record { category = category.id; quantity = c.qty; key = c.idempotency_key }),
    record c { busy = true; failed_last = false },
  )
]

-- submit, after the response, which is the identifier of the order.
unfoldable pub answered : {T : Type 0} → Checkout → Fetched T ℕ → ℕ → Checkout
answered c (got order) new_key = record c { busy = false; paying = some order }
answered c (refused e) new_key = record c {
  busy = false;
  failed_last = true;
  idempotency_key = new_key;
}
answered c malformed new_key = record c {
  busy = false;
  failed_last = true;
  idempotency_key = new_key;
}
