-- ===== src/Core/Interleaving/Moving.antt =====
-- What each atomic step does to the places of a category: sold, reserved, on the way, in the stock.
use antretix.Common.{
  ℕ, ◌+◌, ◌-◌, ◌≤◌, ◌≡◌, refl, sym, ap, subst, ◌∙◌, true, false, none, some, List, [], ◌∷◌, map,
  find, arith, ◌==◌, All, Bool-cases, Option-cases, inl, inr,
}
use antretix.Common.Int.{ℤ, pos, ◌+ℤ◌, ◌-ℤ◌, ◌≤ℤ◌, eq_of_parts, +ℤ_parts, -ℤ_parts}
use antretix.Shared.Keys
use antretix.Shared.Keys.{key_eq}
use antretix.Redis.{Redis, or_zero}
use antretix.Database.Schema.{TicketCategory, Order, OrderItem}
use antretix.Database.Functions.{ReserveArgs, has_room, hold}
use antretix.Database.Settlement.{of_order, qty_of, update_rows, free_row, sell_row}
use antretix.Lua.Stock.{release}
use antretix.Lua.Stock.Exact.{stock_of, Grants, release_result}
use antretix.Core.Orders.Moving.{SameStocks}
use antretix.Core.InStep.{belongs}
use antretix.Core.InStep.Placing.{OnlyItem}
use antretix.Core.Interleaving.{single}

pos_sub : (n q : ℕ) → q ≤ n → pos n -ℤ pos q ≡ pos (n - q)
pos_sub n q h = eq_of_parts _ _ (omega (arith, h, -ℤ_parts (pos n) (pos q)))

pos_add : (n q : ℕ) → pos n +ℤ pos q ≡ pos (n + q)
pos_add n q = eq_of_parts _ _ (omega (arith, +ℤ_parts (pos n) (pos q)))

single_ne :
    (e k q e' k' : ℕ) → key_eq (Keys.stock e k) (Keys.stock e' k') ≡ false → single e k q e' k' ≡ 0
single_ne e k q e' k' h = ground arith

module _ (R : Redis) where
  open R use {Store}

  -- Every place of the category is sold, reserved, on the way (`m`) or in the stock of Redis.
  abbrev pub Adds : Store → (ℕ → ℕ → ℕ) → TicketCategory → Type 0
  Adds s m c =
      (n : ℕ) × (stock_of R s c.event_id c.id ≡ some (pos n))
      × (c.sold + c.reserved + m c.event_id c.id + n ≡ c.quota)

  pub Adds-same :
      (s s' : Store) (m m' : ℕ → ℕ → ℕ) (cs : List TicketCategory)
      → SameStocks R s s'
      → ((e k : ℕ) → m' e k ≡ m e k)
      → All (Adds s m) cs
      → All (Adds s' m') cs
  Adds-same s s' m m' [] same eq h = tt
  Adds-same s s' m m' (c ∷ cs) same eq h =
      let (n, there, total) = h.0 in
      (
        (n, same c.event_id c.id ∙ there, omega (arith, total, eq c.event_id c.id)),
        Adds-same s s' m m' cs same eq h.1,
      )

  -- reserve.lua takes tickets from the stock.
  pub Adds-take :
      (s s' : Store) (e k u qty limit : ℕ) (n reply : ℤ) (m : ℕ → ℕ → ℕ) (cs : List TicketCategory)
      → Grants R s e k u qty limit n (reply, s')
      → All (Adds s m) cs
      → All (Adds s' (λ e' k'. single e k qty e' k' + m e' k')) cs
  Adds-take s s' e k u qty limit n reply m [] g h = tt
  Adds-take s s' e k u qty limit n reply m (c ∷ cs) g h =
      let (there, within, enough, _, stock, held, rest) = g in
      let (n0, before, total) = h.0 in
      (
        elim (Bool-cases (key_eq (Keys.stock e k) (Keys.stock c.event_id c.id))) [
          | inl same ↦
              let e_same : e ≡ c.event_id = ground arith in
              let k_same : k ≡ c.id = ground arith in
              let was : some (pos n0) ≡ some n = sym before ∙ rw (sym e_same, sym k_same) there in
              let whole : pos n0 ≡ n = cc in
              let bound : pos qty ≤ℤ pos n0 = subst (λ x. pos qty ≤ℤ x) (sym whole) enough in
              let fit : qty ≤ n0 = omega (arith, bound) in
              let left : stock_of R s' e k ≡ some (pos (n0 - qty)) =
                stock ∙ ap (λ x. some (x -ℤ pos qty)) (sym whole) ∙ ap some (pos_sub n0 qty fit) in
              (n0 - qty, rw (sym e_same, sym k_same) left, ground arith)
          | inr other ↦ (
            n0,
            ap (λ x. x.counter) (rest (Keys.stock c.event_id c.id) other refl) ∙ before,
            omega (arith, total, single_ne e k qty c.event_id c.id other),
          )
        ],
        Adds-take s s' e k u qty limit n reply m cs g h.1,
      )

  -- release.lua puts them back.
  pub Adds-give :
      (s : Store) (e k u qty : ℕ) (m : ℕ → ℕ → ℕ) (cs : List TicketCategory)
      → All (Adds s (λ e' k'. single e k qty e' k' + m e' k')) cs
      → All (Adds (release R s (Keys.stock e k) (Keys.bought e u) qty).1 m) cs
  Adds-give s e k u qty m [] h = tt
  Adds-give s e k u qty m (c ∷ cs) h =
      let (answer, stock, low, high, rest) = release_result R s e k u qty in
      let (n, before, total) = h.0 in
      (
        elim (Bool-cases (key_eq (Keys.stock e k) (Keys.stock c.event_id c.id))) [
          | inl same ↦
              let e_same : c.event_id ≡ e = ground arith in
              let k_same : c.id ≡ k = ground arith in
              let was : stock_of R s e k ≡ some (pos n) = rw (sym e_same, sym k_same) before in
              (
                n + qty,
                rw (e_same, k_same)
                    (stock ∙ ap some (answer ∙ ap (λ o. or_zero o +ℤ pos qty) was ∙ pos_add n qty)),
                ground arith,
              )
          | inr other ↦ (
            n,
            ap (λ x. x.counter) (rest (Keys.stock c.event_id c.id) other refl) ∙ before,
            omega (arith, total, single_ne e k qty c.event_id c.id other),
          )
        ],
        Adds-give s e k u qty m cs h.1,
      )

  -- antretix_reserve_order reserves what was on the way.
  pub Adds-hold :
      (s : Store) (p : ReserveArgs) (m : ℕ → ℕ → ℕ) (cs : List TicketCategory)
      → All (λ c. (c.id == p.category_id) ≡ true → has_room p c ≡ true) cs
      → All (Adds s (λ e k. single p.event_id p.category_id p.qty e k + m e k)) cs
      → All (Adds s m) (map (hold p) cs)
  Adds-hold s p m [] room h = tt
  Adds-hold s p m (c ∷ cs) room h =
      let (n, there, total) = h.0 in
      (
        elim (Bool-cases (c.id == p.category_id)) [
          | inl same ↦ let has = room.0 same in rw has (n, there, ground arith)
          | inr other ↦
              let full : has_room p c ≡ false = ground arith in rw full (n, there, ground arith)
        ],
        Adds-hold s p m cs room.1 h.1,
      )

  -- antretix_release_order frees what an order has reserved.
  pub Adds-free :
      (s : Store) (order : ℕ) (o : Order) (is : List OrderItem) (all cs : List TicketCategory)
      (m : ℕ → ℕ → ℕ) (only : OnlyItem order o is all)
      → All (λ c. belongs only.item o c ≡ true) cs
      → All (λ c. qty_of (find (of_order order c) is) ≤ c.reserved) cs
      → All (Adds s m) cs
      → let i = only.item in
        All
          (Adds s (λ e k. single o.event_id i.category_id i.qty e k + m e k))
          (update_rows free_row order is cs)
  Adds-free s order o is all [] m only own fits h = tt
  Adds-free s order o is all (c ∷ cs) m only own fits h =
      let i = only.item in
      let (n, there, total) = h.0 in
      (
        elim (Bool-cases (c.id == i.category_id)) [
          | inl same ↦
              let row : find (of_order order c) is ≡ some i = only.found c ∙ rw same refl in
              let fit : i.qty ≤ c.reserved = rw row at (fits.0) in
              let here : (c.event_id == o.event_id) ≡ true = ground (arith, own.0) in
              rw row (n, there, ground arith)
          | inr other ↦
              let row : find (of_order order c) is ≡ none = only.found c ∙ rw other refl in
              rw row (n, there, ground arith)
        ],
        Adds-free s order o is all cs m only own.1 fits.1 h.1,
      )

  -- antretix_pay_order turns reserved tickets into sold ones.
  pub Adds-sell :
      (s : Store) (order : ℕ) (is : List OrderItem) (m : ℕ → ℕ → ℕ) (cs : List TicketCategory)
      → All (λ c. qty_of (find (of_order order c) is) ≤ c.reserved) cs
      → All (Adds s m) cs
      → All (Adds s m) (update_rows sell_row order is cs)
  Adds-sell s order is m [] fits h = tt
  Adds-sell s order is m (c ∷ cs) fits h =
      let (n, there, total) = h.0 in
      (
        elim (Option-cases (find (of_order order c) is)) [
          | inl e ↦ rw e (n, there, total)
          | inr (i, e) ↦
              let fit : i.qty ≤ c.reserved = rw e at (fits.0) in
              rw e (n, there, omega (arith, fit, total))
        ],
        Adds-sell s order is m cs fits.1 h.1,
      )
