-- ===== src/Database/Tally.antt =====
-- Counting the tickets that orders hold: what the counters of a category have to agree with.
use antretix.Common.{
  ℕ, ◌+◌, ◌<◌, ◌≡◌, ◌≢◌, refl, Bool, true, false, ◌&&◌, inl, inr, some, List, [], ◌∷◌, map, arith,
  ◌==◌, if◌then◌else◌, find, All, Bool-cases,
}
use antretix.Shared.Constants.{OrderStatus, pending, paid}
use antretix.Shared.Policy.{same_status}
use antretix.Database.Schema.{TicketCategory, Order, OrderItem}
use antretix.Database.Settlement.{qty_of, of_order}

-- No order of the list has the id.
abbrev pub NoOrder : ℕ → List Order → Type 0
NoOrder k = All (λ o. (o.id == k) ≡ false)

-- Every order has one item, of at least one ticket, and order ids are unique.
abbrev pub Paired : List Order → List OrderItem → Type 0
Paired [] [] = Unit
Paired [] (i ∷ is) = ⊥
Paired (o ∷ os) [] = ⊥
Paired (o ∷ os) (i ∷ is) = (i.order_id ≡ o.id) × (0 < i.qty) × NoOrder o.id os × Paired os is

-- The tickets of a category in orders of a status.
abbrev pub tally : OrderStatus → ℕ → List Order → List OrderItem → ℕ
tally st c [] items = 0
tally st c (o ∷ os) [] = 0
tally st c (o ∷ os) (i ∷ is) =
    (if same_status o.status st && i.category_id == c then i.qty else 0) + tally st c os is

-- The tickets of the order in the category.
abbrev pub order_qty : ℕ → TicketCategory → List OrderItem → ℕ
order_qty order c items = qty_of (find (of_order order c) items)

order_qty_none :
    (order : ℕ) (c : TicketCategory) (os : List Order) (is : List OrderItem)
    → Paired os is
    → NoOrder order os
    → order_qty order c is ≡ 0
order_qty_none order c [] [] p n = refl
order_qty_none order c [] (i ∷ is) p n = absurd p
order_qty_none order c (o ∷ os) [] p n = absurd p
order_qty_none order c (o ∷ os) (i ∷ is) p n = ground (arith, order_qty_none order c os is p.3 n.1)

-- Moving one PENDING order, `order`, to another status: `test` finds it and `g` moves it.
module _ (order : ℕ) (st : OrderStatus) (test : Order → Bool) (g : Order → Order)
    (finds : (o : Order) → test o ≡ true → (o.id ≡ order) × (o.status ≡ pending))
    (keeps : (o : Order) → test o ≡ false → g o ≡ o)
    (moves : (o : Order) → test o ≡ true → ((g o).id ≡ o.id) × ((g o).status ≡ st)) where
  id-move : (o : Order) → (g o).id ≡ o.id
  id-move o = elim (Bool-cases (test o)) [ inl t ↦ (moves o t).0 | inr f ↦ rw (keeps o f) ]

  NoOrder-move : (k : ℕ) (os : List Order) → NoOrder k os → NoOrder k (map g os)
  NoOrder-move k [] n = tt
  NoOrder-move k (o ∷ os) n = (rw (id-move o) n.0, NoOrder-move k os n.1)

  pub Paired-move : (os : List Order) (is : List OrderItem) → Paired os is → Paired (map g os) is
  Paired-move [] [] p = tt
  Paired-move [] (i ∷ is) p = absurd p
  Paired-move (o ∷ os) [] p = absurd p
  Paired-move (o ∷ os) (i ∷ is) p =
      rw (id-move o) (p.0, p.1, NoOrder-move o.id os p.2, Paired-move os is p.3)

  move_others : (os : List Order) → NoOrder order os → map g os ≡ os
  move_others [] n = refl
  move_others (o ∷ os) n = elim (Bool-cases (test o)) [
    | inl t ↦ absurd (ground (arith, finds o t))
    | inr f ↦ ground (arith, keeps o f, move_others os n.1)
  ]

  -- An order that `test` finds is PENDING, has the id, and is none of those that have another id.
  found_order :
      (os : List Order) (o : Order)
      → find test os ≡ some o
      → (test o ≡ true) × ((k : ℕ) → NoOrder k os → (o.id == k) ≡ false)
  found_order [] o f = cc
  found_order (o' ∷ os) o f = elim (Bool-cases (test o')) [
    | inl t ↦ (ground arith, λ k n. ground arith)
    | inr h ↦ let (t, others) = found_order os o (ground arith) in (t, λ k n. others k n.1)
  ]

  pub tally-move :
      (c : TicketCategory) (os : List Order) (is : List OrderItem) (o : Order)
      → st ≢ pending
      → Paired os is
      → find test os ≡ some o
      → (tally pending c.id (map g os) is + order_qty order c is ≡ tally pending c.id os is)
        × (tally paid c.id (map g os) is
            ≡ tally paid c.id os is + (if same_status st paid then order_qty order c is else 0))
  tally-move c [] is o ne p f = cc
  tally-move c (o ∷ os) [] o' ne p f = absurd p
  tally-move c (o ∷ os) (i ∷ is) o' ne p f = elim (Bool-cases (test o)) [
    | inl t ↦
        let here = (finds o t).0 in
        let rest : NoOrder order os = rw here at p.2 in
        ground
          (arith, finds o t, moves o t, move_others os rest, order_qty_none order c os is p.3 rest)
    | inr h ↦
        let (t, others) = found_order os o' (ground arith) in
        ground (
          arith,
          keeps o h,
          finds o' t,
          others o.id p.2,
          tally-move c os is o' ne p.3 (ground arith),
        )
  ]
