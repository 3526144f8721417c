-- ===== src/Shared/Policy.antt =====
-- packages/shared/src/policy.ts: the limit of tickets per account and the order transitions.
use antretix.Common.{
  ℕ, ◌+◌, ◌≤◌, ◌≡◌, ◌↔◌, Bool, true, false, ◌||◌, List, [], ◌∷◌, arith, ltb, if◌then◌else◌,
}
use antretix.Shared.Constants.{OrderStatus, pending, paid, expired, cancelled, refunded}

pub data LimitDecision : Type 0 where
  ok limit_exceeded invalid_qty : LimitDecision

-- `requested` is a natural number, so `Number.isInteger(requested)` holds of it.
unfoldable pub check_per_user_limit : ℕ → ℕ → ℕ → LimitDecision
check_per_user_limit already_held requested max_per_user =
    if ltb requested 1
    then invalid_qty
    else if ltb max_per_user (already_held + requested)
    then limit_exceeded
    else ok

-- ORDER_TRANSITIONS
order_transitions : OrderStatus → List OrderStatus
order_transitions pending = paid ∷ expired ∷ cancelled ∷ []
order_transitions paid = refunded ∷ []
order_transitions expired = refunded ∷ []
order_transitions cancelled = []
order_transitions refunded = []

abbrev pub same_status : OrderStatus → OrderStatus → Bool
same_status pending pending = true
same_status paid paid = true
same_status expired expired = true
same_status cancelled cancelled = true
same_status refunded refunded = true
same_status _ _ = false

includes : List OrderStatus → OrderStatus → Bool
includes [] s = false
includes (t ∷ ts) s = same_status t s || includes ts s

unfoldable pub can_transition : OrderStatus → OrderStatus → Bool
unfolding order_transitions includes
can_transition from to = includes (order_transitions from) to

-- holdsTickets
unfoldable pub holds_tickets : OrderStatus → Bool
holds_tickets pending = true
holds_tickets paid = true
holds_tickets _ = false

-- An order is accepted exactly when it asks for a ticket and stays within the limit.
pub check_per_user_limit_iff :
    (held requested limit : ℕ)
    → (check_per_user_limit held requested limit ≡ ok)
      ↔ ((1 ≤ requested) × (held + requested ≤ limit))
unfolding check_per_user_limit
check_per_user_limit_iff held requested limit = (λ h. ground arith, λ h. ground arith)

-- A transition out of a status that holds no tickets never leads back to one that does.
pub can_transition-holds_tickets :
    (from to : OrderStatus)
    → can_transition from to ≡ true
    → holds_tickets from ≡ false
    → holds_tickets to ≡ false
unfolding can_transition holds_tickets
can_transition-holds_tickets from to h n = ground arith
