-- ===== src/Core/InStep/Placing.antt =====
-- Which rows a statement about one order moves.
use antretix.Common.{
  ℕ, ◌≤◌, ◌≡◌, refl, Bool, true, false, none, some, List, [], ◌∷◌, map, arith, ◌==◌, if◌then◌else◌,
  find, All, Bool-cases, inl, inr,
}
use antretix.Database.Schema.{TicketCategory, Order, OrderItem}
use antretix.Database.Settlement.{ReleasedRow, of_order, qty_of, released_rows, goes_negative}
use antretix.Database.Tally.{NoOrder, Paired}
use antretix.Core.InStep.{belongs, Placed}

module _ (f : TicketCategory → TicketCategory) (g : Order → Order)
    (same : (c : TicketCategory) → ((f c).id ≡ c.id) × ((f c).event_id ≡ c.event_id))
    (same_event : (o : Order) → (g o).event_id ≡ o.event_id) where
  belongs-map :
      (i : OrderItem) (o : Order) (cs : List TicketCategory)
      → All (λ c. belongs i o c ≡ true) cs
      → All (λ c. belongs i (g o) c ≡ true) (map f cs)
  belongs-map i o [] h = tt
  belongs-map i o (c ∷ cs) h =
      (rw ((same c).0, (same c).1, same_event o) h.0, belongs-map i o cs h.1)

  pub Placed-map :
      (cs : List TicketCategory) (os : List Order) (is : List OrderItem)
      → Placed cs os is
      → Placed (map f cs) (map g os) is
  Placed-map cs [] is p = tt
  Placed-map cs (o ∷ os) [] p = tt
  Placed-map cs (o ∷ os) (i ∷ is) p = (belongs-map i o cs p.0, Placed-map cs os is p.1)

abbrev pub row_of : Order → OrderItem → ReleasedRow
row_of o i = record {
  event_id = o.event_id;
  user_id = o.user_id;
  category_id = i.category_id;
  qty = i.qty;
}

no_rows :
    (order : ℕ) (o : Order) (os : List Order) (is : List OrderItem)
    → Paired os is
    → NoOrder order os
    → released_rows order o is ≡ []
no_rows order o [] [] p n = refl
no_rows order o [] (i ∷ is) p n = absurd p
no_rows order o (x ∷ os) [] p n = absurd p
no_rows order o (x ∷ os) (i ∷ is) p n = ground (arith, no_rows order o os is p.3 n.1)

no_item :
    (order : ℕ) (c : TicketCategory) (os : List Order) (is : List OrderItem)
    → Paired os is
    → NoOrder order os
    → find (of_order order c) is ≡ none
no_item order c [] [] p n = refl
no_item order c [] (i ∷ is) p n = absurd p
no_item order c (x ∷ os) [] p n = absurd p
no_item order c (x ∷ os) (i ∷ is) p n = ground (arith, no_item order c os is p.3 n.1)

-- The item of an order, and that it is the only one.
pub record OnlyItem (order : ℕ) (o : Order) (is : List OrderItem) (cs : List TicketCategory)
    : Type 0 where
  pub item : OrderItem
  pub rows : released_rows order o is ≡ row_of o item ∷ []
  pub found :
      (c : TicketCategory)
      → find (of_order order c) is ≡ (if c.id == item.category_id then some item else none)
  pub placed : All (λ c. belongs item o c ≡ true) cs

-- The order that is found has none of the ids that the list does not have.
other_id :
    (order : ℕ) (test : Order → Bool)
    → ((o : Order) → test o ≡ true → o.id ≡ order)
    → (os : List Order) (o : Order) (k : ℕ) → NoOrder k os
    → find test os ≡ some o
    → (k == order) ≡ false
other_id order test named [] o k n f = cc
other_id order test named (x ∷ os) o k n f = elim (Bool-cases (test x)) [
  | inl hit ↦ ground (arith, named x hit)
  | inr miss ↦ other_id order test named os o k n.1 (ground arith)
]

-- `test` finds an order by its id.
pub only_item :
    (order : ℕ) (test : Order → Bool)
    → ((o : Order) → test o ≡ true → o.id ≡ order)
    → (cs : List TicketCategory) (os : List Order) (is : List OrderItem) (o : Order) → Paired os is
    → Placed cs os is
    → find test os ≡ some o
    → OnlyItem order o is cs
only_item order test named cs [] is o p q f = cc
only_item order test named cs (x ∷ os) [] o p q f = absurd p
only_item order test named cs (x ∷ os) (i ∷ is) o p q f = elim (Bool-cases (test x)) [
  | inl hit ↦
      let same : x.id ≡ order = named x hit in
      let first : x ≡ o = ground arith in
      let rest : NoOrder order os = rw same at p.2 in
      rw (← first) (record {
        item = i;
        rows = ground (arith, no_rows order x os is p.3 rest);
        found = λ c. ground (arith, no_item order c os is p.3 rest);
        placed = q.0;
      })
  | inr miss ↦
      let later = only_item order test named cs os is o p.3 q.1 (ground arith) in
      let apart = other_id order test named os o x.id p.2 (ground arith) in
      record {
        item = later.item;
        rows = ground (arith, later.rows);
        found = λ c. ground (arith, later.found c);
        placed = later.placed;
      }
]

pub not_negative :
    (order : ℕ) (is : List OrderItem) (cs : List TicketCategory)
    → goes_negative order is cs ≡ false
    → All (λ c. qty_of (find (of_order order c) is) ≤ c.reserved) cs
not_negative order is [] h = tt
not_negative order is (c ∷ cs) h = (ground arith, not_negative order is cs (ground arith))
