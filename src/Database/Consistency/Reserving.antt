-- ===== src/Database/Consistency/Reserving.antt =====
-- antretix_reserve_order keeps the tables consistent.
use antretix.Common.{
  ℕ, ◌+◌, ◌*◌, ◌≤◌, ◌<◌, ◌≡◌, ◌⊎◌, refl, ap, true, false, ◌&&◌, inl, inr, none, some, List, [], ◌∷◌,
  map, arith, ltb, ◌==◌, find, All, Bool-cases, Option-cases,
}
use antretix.Database.Schema.{TicketCategory, Order, OrderItem, Database}
use antretix.Database.Functions.{
  done, exception, ok, limit_exceeded, out_of_stock, held_by, ReserveArgs, has_room, overflows,
  same_item, hold, clashes, new_order, new_item, reserve_order,
}
use antretix.Database.Tally.{NoOrder}
use antretix.Database.Consistency.{DistinctIds, Counted, IsConsistent, after, DistinctIds-map}

-- The row that the UPDATE finds is the only one with the category's id.
found_room :
    (p : ReserveArgs) (cs : List TicketCategory) (c : TicketCategory)
    → find (has_room p) cs ≡ some c
    → (c.id ≡ p.category_id) × ((k : ℕ) → All (λ d. (d.id == k) ≡ false) cs → (c.id == k) ≡ false)
found_room p [] c f = cc
found_room p (d ∷ cs) c f = elim (Bool-cases (has_room p d)) [
  | inl room ↦ (ground arith, λ k n. ground arith)
  | inr full ↦ let (e, others) = found_room p cs c (ground arith) in (e, λ k n. others k n.1)
]

reserve-Counted :
    (p : ReserveArgs) (price : ℕ) (os : List Order) (is : List OrderItem) (cs : List TicketCategory)
    → All (λ c. (c.id == p.category_id) ≡ true → has_room p c ≡ true) cs
    → All (Counted os is) cs
    → All (Counted (new_order p price ∷ os) (new_item p price ∷ is)) (map (hold p) cs)
reserve-Counted p price os is [] r h = tt
reserve-Counted p price os is (c ∷ cs) r h =
    (ground arith, reserve-Counted p price os is cs r.1 h.1)

others_room :
    (p : ReserveArgs) (k : ℕ) (cs : List TicketCategory)
    → k ≡ p.category_id
    → All (λ d. (d.id == k) ≡ false) cs
    → All (λ c. (c.id == p.category_id) ≡ true → has_room p c ≡ true) cs
others_room p k [] e n = tt
others_room p k (c ∷ cs) e n = (λ h. ground arith, others_room p k cs e n.1)

-- So every row with that id has room.
pub unique_room :
    (p : ReserveArgs) (cs : List TicketCategory) (c : TicketCategory)
    → DistinctIds cs
    → find (has_room p) cs ≡ some c
    → All (λ c. (c.id == p.category_id) ≡ true → has_room p c ≡ true) cs
unique_room p [] c d f = cc
unique_room p (x ∷ cs) c d f = elim (Bool-cases (has_room p x)) [
  | inl room ↦ (λ h. room, others_room p x.id cs (ground arith) d.0)
  | inr full ↦
      let (e, others) = found_room p cs c (ground arith) in
      let apart = others x.id d.0 in (λ h. ground arith, unique_room p cs c d.1 (ground arith))
]

pub NoOrder-clashes :
    (p : ReserveArgs) (os : List Order) → find (clashes p) os ≡ none → NoOrder p.order_id os
NoOrder-clashes p [] f = tt
NoOrder-clashes p (o ∷ os) f = (ground arith, NoOrder-clashes p os (ground arith))

-- The tables after a reservation that goes through.
abbrev pub reserved : Database → ReserveArgs → ℕ → Database
reserved db p price = record db {
  categories = map (hold p) db.categories;
  orders = new_order p price ∷ db.orders;
  items = new_item p price ∷ db.items;
}

-- What a reservation answers, and that only an order changes the tables.
pub reserve_order_results :
    (db : Database) (p : ReserveArgs)
    → (reserve_order db p ≡ exception)
      ⊎ (reserve_order db p ≡ done limit_exceeded db)
      ⊎ ((find (has_room p) db.categories ≡ none) × (reserve_order db p ≡ done out_of_stock db))
      ⊎ ((c : TicketCategory) × (find (has_room p) db.categories ≡ some c)
          × (find (clashes p) db.orders ≡ none)
          × (0 < p.qty)
          × (held_by db p.user_id p.event_id + p.qty ≤ p.max_per_user)
          × (reserve_order db p ≡ done ok (reserved db p c.price)))
unfolding reserve_order
reserve_order_results db p =
    elim (Bool-cases (ltb (held_by db p.user_id p.event_id + p.qty) 2147483648)) [
      | inr raised ↦ inl (ground arith)
      | inl fits ↦
          elim (Bool-cases (ltb p.max_per_user (held_by db p.user_id p.event_id + p.qty))) [
            | inl over ↦ inr (inl (ground arith))
            | inr within ↦ elim (Option-cases (find (overflows p) db.categories)) [
              | inr (d, g) ↦ inl (ground arith)
              | inl g ↦ elim (Option-cases (find (has_room p) db.categories)) [
                | inl e ↦ inr (inr (inl (e, ground arith)))
                | inr (c, e) ↦ elim (Option-cases (find (clashes p) db.orders)) [
                  | inr (o, f) ↦ inl (ground arith)
                  | inl f ↦ elim (Bool-cases (ltb (c.price * p.qty) 2147483648 && ltb 0 p.qty)) [
                    | inr bad ↦ inl (ground arith)
                    | inl good ↦ elim (Option-cases (find (same_item p) db.items)) [
                      | inr (i, k) ↦ inl (ground arith)
                      | inl k ↦ inr (inr (inr (c, e, f, ground arith, ground arith, ground arith)))
                    ]
                  ]
                ]
              ]
            ]
          ]
    ]

-- When a reservation goes through, and what it changes otherwise: nothing.
pub reserve_order_cases :
    (db : Database) (p : ReserveArgs)
    → (after db (reserve_order db p) ≡ db)
      ⊎ ((c : TicketCategory) × (find (has_room p) db.categories ≡ some c)
          × (find (clashes p) db.orders ≡ none)
          × (0 < p.qty)
          × (held_by db p.user_id p.event_id + p.qty ≤ p.max_per_user)
          × (reserve_order db p ≡ done ok (reserved db p c.price)))
reserve_order_cases db p = elim (reserve_order_results db p) [
  | inl raised ↦ inl (ap (after db) raised)
  | inr (inl limit) ↦ inl (ap (after db) limit)
  | inr (inr (inl (full, out))) ↦ inl (ap (after db) out)
  | inr (inr (inr granted)) ↦ inr granted
]

-- A reservation keeps the tables consistent, whatever it answers.
pub reserve_order-IsConsistent :
    (db : Database) (p : ReserveArgs)
    → IsConsistent db
    → IsConsistent (after db (reserve_order db p))
reserve_order-IsConsistent db p v = elim (reserve_order_cases db p) [
  | inl same ↦ rw same v
  | inr (c, e, f, positive, _, result) ↦ rw result (record {
    paired = (refl, positive, NoOrder-clashes p db.orders f, v.paired);
    keyed = DistinctIds-map (hold p) (λ d. ground arith) db.categories v.keyed;
    counted =
        reserve-Counted p c.price db.orders db.items db.categories
          (unique_room p db.categories c v.keyed e) v.counted;
  })
]
