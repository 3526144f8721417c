-- ===== src/Web/Checkout/Resending.antt =====
-- A page is redirected at most once for a state of the queue; and what becomes of an order whose
-- reply is lost on the way to the page.
use antretix.Common.{ℕ, ◌≡◌, refl, true, false, Option, none, some, [], ◌∷◌}
use antretix.Common.Int.{pos}
use antretix.Redis.Memory.{memory}
use antretix.Database.Functions.{held_by}
use antretix.Core.Context.{World}
use antretix.Core.Orders.{CreateOrderRequest, create_order}
use antretix.Core.Orders.Committing.{alone}
use antretix.Core.Orders.Examples.{settings, two_tickets, draw, world}
use antretix.Core.Queue.{
  QueueState, not_started, waiting_room, waiting, admitted, not_in_queue, sold_out_state,
}
use antretix.Web.Client.{refused, network_error}
use antretix.Web.Checkout.{Page, destination, Checkout, OrderCall, choose, submit, answered}

abbrev pub target : Option Page → Page → Page
target none here = here
target (some page) here = page

-- A state sends its user from any page of the queue to one page: where it sends a user is where it
-- would send them, or leave them, from there.
pub destination_settles :
    {T : Type 0} (state : QueueState T) (here : Page)
    → let there = target (destination state here) here in
      target (destination state there) there ≡ there
unfolding destination
destination_settles (admitted t e) here = refl
destination_settles sold_out_state here = refl
destination_settles (not_in_queue q) here = refl
destination_settles (not_started p o) here = refl
destination_settles (waiting_room o) Page.waiting_page = refl
destination_settles (waiting_room o) Page.queue_page = refl
destination_settles (waiting_room o) Page.event_page = refl
destination_settles (waiting_room o) Page.checkout_page = refl
destination_settles (waiting_room o) Page.sold_out_page = refl
destination_settles (waiting w) Page.waiting_page = refl
destination_settles (waiting w) Page.queue_page = refl
destination_settles (waiting w) Page.event_page = refl
destination_settles (waiting w) Page.checkout_page = refl
destination_settles (waiting w) Page.sold_out_page = refl

-- Two of five tickets, with the key 99.
abbrev page : Checkout
page =
    choose
      (record {
        stock = some (record {
          categories = record { id = 7; name = 70; price = 100; quota = 5; remaining = 5 } ∷ [];
          session_expires_at = pos 600000;
          max_per_user = 4;
          already_held = pos 0;
        });
        category_id = none;
        qty = 1;
        failed_last = false;
        busy = false;
        idempotency_key = 99;
        paying = none;
      })
      7

abbrev two : Checkout
two = record page { qty = 2 }

abbrev sent_by : Option OrderCall → CreateOrderRequest
sent_by none = two_tickets
sent_by (some call) = record two_tickets {
  category_id = call.category;
  qty = call.quantity;
  idempotency_key = call.key;
}

-- The server makes the order, the connection breaks, and the user tries again.
abbrev after_first : World memory
after_first =
    (create_order memory (alone memory) world settings (sent_by (submit two).0) (draw 501) 3000).1

abbrev broken : Checkout
broken =
    answered {T = ℕ} (submit two).1
      (refused (record { status = 0; code = network_error; retry_after_sec = none })) 100

abbrev after_second : World memory
after_second =
    (create_order memory (alone memory) after_first settings (sent_by (submit broken).0) (draw 502)
      4000).1

-- The second attempt has another key, so the account holds four tickets for one choice of two.
resent-held_by : held_by after_second.db 11 1 ≡ 4
unfolding submit answered held_by create_order antretix.Core.OrderViews.find_by_idempotency_key
    antretix.Shared.Policy.check_per_user_limit antretix.Lua.Stock.reserve antretix.Common.Int.◌+ℤ◌
    antretix.Common.Int.◌-ℤ◌ antretix.Database.Functions.reserve_order
resent-held_by = refl
