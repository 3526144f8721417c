-- ===== src/Core/InStep/Ordering.antt =====
-- createOrder keeps Redis and PostgreSQL in step.
use mathlib.Core.List.{map-id}
use antretix.Common.{
  ℕ, ◌+◌, ◌≡◌, find, refl, sym, ◌∙◌, ap, subst, true, false, some, List, [], ◌∷◌, map, arith, ◌==◌,
  All, Bool-cases, inl, inr,
}
use antretix.Common.Int.{ℤ, pos, ◌-ℤ◌, eq_of_parts, -ℤ_parts}
use antretix.Shared.Keys
use antretix.Shared.Keys.{Key, key_eq}
use antretix.Redis.{Redis}
use antretix.Database.Schema.{TicketCategory, Database}
use antretix.Database.Consistency.{DistinctIds}
use antretix.Database.Functions.{ReserveArgs, has_room, hold, new_item, new_order}
use antretix.Database.Consistency.Reserving.{reserved, unique_room, reserve_order-IsConsistent}
use antretix.Lua.Stock.Exact.{stock_of}
use antretix.Core.Context.{CoreSettings, World}
use antretix.Core.Orders.{CreateOrderRequest, Draw, reserve_args, create_order}
use antretix.Core.Orders.Committing.{alone}
use antretix.Core.Orders.Moving.{SameStocks, create_order-Moves}
use antretix.Core.Reconcile.{db_available_of}
use antretix.Core.InStep.{belongs, Placed, Stocked, IsInStep}
use antretix.Core.InStep.Placing.{Placed-map}

-- What is left falls by what is reserved.
available_held :
    (c : TicketCategory) (qty : ℕ)
    → db_available_of (record c { reserved = c.reserved + qty }) ≡ db_available_of c -ℤ pos qty
available_held c qty =
    let q = pos c.quota -ℤ pos c.sold in
    eq_of_parts _ _ (
      omega (
        arith,
        -ℤ_parts q (pos (c.reserved + qty)),
        -ℤ_parts q (pos c.reserved),
        -ℤ_parts (q -ℤ pos c.reserved) (pos qty),
      ))

-- The rows with the category's id have room, so they are of the event.
new_belongs :
    (p : ReserveArgs) (price : ℕ) (cs : List TicketCategory)
    → All (λ c. (c.id == p.category_id) ≡ true → has_room p c ≡ true) cs
    → All (λ c. belongs (new_item p price) (new_order p price) c ≡ true) (map (hold p) cs)
new_belongs p price [] h = tt
new_belongs p price (c ∷ cs) h = (ground (arith, h.0), new_belongs p price cs h.1)

-- So a new order is for a category of its event, and the others still are.
pub reserved-Placed :
    (db : Database) (p : ReserveArgs) (price : ℕ) (c : TicketCategory)
    → DistinctIds db.categories
    → find (has_room p) db.categories ≡ some c
    → Placed db.categories db.orders db.items
    → let db' = reserved db p price in Placed db'.categories db'.orders db'.items
reserved-Placed db p price c keyed room placed = (
  new_belongs p price db.categories (unique_room p db.categories c keyed room),
  subst (λ os. Placed (map (hold p) db.categories) os db.items) (map-id db.orders)
      (Placed-map (hold p) (λ o. o) (λ d. ground arith) (λ o. refl) db.categories db.orders db.items
        placed),
)

module _ (R : Redis) where
  open R use {Store}

  pub Stocked-same :
      (s s' : Store) (cs : List TicketCategory)
      → SameStocks R s s'
      → Stocked R s cs
      → Stocked R s' cs
  Stocked-same s s' [] same h = tt
  Stocked-same s s' (c ∷ cs) same h = (same c.event_id c.id ∙ h.0, Stocked-same s s' cs same h.1)

  -- The stock of one category falls by what `p` reserves.
  Stocked-hold :
      (s s' : Store) (p : ReserveArgs) (n : ℤ) (cs : List TicketCategory)
      → stock_of R s p.event_id p.category_id ≡ some n
      → stock_of R s' p.event_id p.category_id ≡ some (n -ℤ pos p.qty)
      → ((e k : ℕ)
          → key_eq (Keys.stock p.event_id p.category_id) (Keys.stock e k) ≡ false
          → stock_of R s' e k ≡ stock_of R s e k)
      → All (λ c. (c.id == p.category_id) ≡ true → has_room p c ≡ true) cs
      → Stocked R s cs
      → Stocked R s' (map (hold p) cs)
  Stocked-hold s s' p n [] before now rest room h = tt
  Stocked-hold s s' p n (c ∷ cs) before now rest room h = (
    elim (Bool-cases (c.id == p.category_id)) [
      | inl same ↦
          let has = room.0 same in
          let k_same : c.id ≡ p.category_id = ground arith in
          let e_same : c.event_id ≡ p.event_id = ground arith in
          let stock : some n ≡ some (db_available_of c) =
            sym before
            ∙ ap (λ k. stock_of R s p.event_id k) (sym k_same)
            ∙ ap (λ e. stock_of R s e c.id) (sym e_same)
            ∙ h.0 in
          let left : n ≡ db_available_of c = cc in
          let there : stock_of R s' c.event_id c.id ≡ some (n -ℤ pos p.qty) =
            rw (e_same, k_same) now in
          rw has
            (there ∙ ap (λ m. some (m -ℤ pos p.qty)) left ∙ ap some (sym (available_held c p.qty)))
      | inr other ↦
          let full : has_room p c ≡ false = ground arith in
          rw full (rest c.event_id c.id (ground arith) ∙ h.0)
    ],
    Stocked-hold s s' p n cs before now rest room.1 h.1,
  )

  -- createOrder keeps the stores in step, whatever it answers, while no other request runs.
  pub create_order-IsInStep :
      (w : World R) (settings : CoreSettings) (r : CreateOrderRequest) (draw : Draw) (now : ℕ)
      → IsInStep R w
      → IsInStep R (create_order R (alone R) w settings r draw now).1
  create_order-IsInStep w settings r draw now v =
      let p = reserve_args settings r draw now in
      let w' = (create_order R (alone R) w settings r draw now).1 in
      elim (create_order-Moves R w settings r draw now) [
        | inl (same, stocks) ↦ record {
          consistent = rw same v.consistent;
          placed = rw same v.placed;
          stocked = rw same (Stocked-same w.redis w'.redis w.db.categories stocks v.stocked);
        }
        | inr (price, n, c, room, moved, ok, before, now_left, rest) ↦
            let all_room = unique_room p w.db.categories c v.consistent.keyed room in
            let kept = reserve_order-IsConsistent w.db p v.consistent in
            record {
              consistent = rw (ok) at kept;
              placed = rw moved (reserved-Placed w.db p price c v.consistent.keyed room v.placed);
              stocked = rw moved (
                  Stocked-hold w.redis w'.redis p n w.db.categories before now_left rest all_room
                    v.stocked);
            }
      ]
