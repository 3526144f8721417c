-- ===== src/Core/Interleaving/Granting.antt =====
-- Whoever reserve.lua lets through finds the tickets in PostgreSQL.
use antretix.Common.{
  ℕ, zero, suc, ◌+◌, ◌≤◌, ◌≡◌, ◌≢◌, sym, Bool, true, ◌&&◌, Option, none, some, List, [], ◌∷◌, find,
  arith, ◌==◌, All, Bool-cases, inl, inr,
}
use antretix.Common.Int.{pos}
use antretix.Redis.{Redis}
use antretix.Database.Schema.{TicketCategory, Database}
use antretix.Database.Functions.{done, ReserveArgs, ReserveResult, reserve_order, has_room}
use antretix.Database.Consistency.{DistinctIds}
use antretix.Database.Consistency.Reserving.{reserve_order_results}
use antretix.Database.Consistency.Histories.{Unsold}
use antretix.Lua.Stock.Exact.{stock_of}
use antretix.Core.Context.{CoreSettings}
use antretix.Core.Orders.{CreateOrderRequest, Draw, reserve_args}
use antretix.Core.Interleaving.{Task, committing, Move, act_all, carried, on_the_way}
use antretix.Core.Interleaving.Moving.{Adds}
use antretix.Core.Interleaving.Reaching.{opening, places_add_up}

abbrev pub task_at : ℕ → List Task → Option Task
task_at n [] = none
task_at zero (t ∷ ts) = some t
task_at (suc n) (t ∷ ts) = task_at n ts

-- The row of a category of the event.
abbrev pub is_row : ReserveArgs → TicketCategory → Bool
is_row p c = (c.id == p.category_id) && (c.event_id == p.event_id)

carried-le :
    (n : ℕ) (ts : List Task) (t : Task) (e k : ℕ)
    → task_at n ts ≡ some t
    → carried t e k ≤ on_the_way ts e k
carried-le n [] t e k h = cc
carried-le zero (u ∷ ts) t e k h = let same : u ≡ t = cc in rw same (omega arith)
carried-le (suc n) (u ∷ ts) t e k h = omega (arith, carried-le n ts t e k h)

has_some :
    (p : ReserveArgs) (cs : List TicketCategory) (c : TicketCategory)
    → find (is_row p) cs ≡ some c
    → has_room p c ≡ true
    → (d : TicketCategory) × (find (has_room p) cs ≡ some d)
has_some p [] c f room = cc
has_some p (x ∷ cs) c f room = elim (Bool-cases (has_room p x)) [
  | inl hit ↦ (x, ground arith)
  | inr miss ↦ let (d, e) = has_some p cs c (ground arith) room in (d, ground arith)
]

in_stock :
    (db : Database) (p : ReserveArgs) (c : TicketCategory)
    → find (has_room p) db.categories ≡ some c
    → reserve_order db p ≢ done ReserveResult.out_of_stock db
in_stock db p c f h = elim (reserve_order_results db p) [
  | inl raised ↦ ground arith
  | inr (inl limit) ↦ ground arith
  | inr (inr (inl (full, out))) ↦ ground arith
  | inr (inr (inr (d, room, fresh, positive, within, ok))) ↦ ground arith
]

module _ (R : Redis) where
  open R use {Store}

  row_room :
      (s : Store) (m : ℕ → ℕ → ℕ) (p : ReserveArgs) (cs : List TicketCategory) (c : TicketCategory)
      → p.qty ≤ m p.event_id p.category_id
      → All (Adds R s m) cs
      → find (is_row p) cs ≡ some c
      → has_room p c ≡ true
  row_room s m p [] c h adds f = cc
  row_room s m p (x ∷ cs) c h adds f = elim (Bool-cases (is_row p x)) [
    | inl hit ↦
        let (n, there, total) = adds.0 in
        let k_same : x.id ≡ p.category_id = ground arith in
        let e_same : x.event_id ≡ p.event_id = ground arith in
        let held : x.sold + x.reserved + m p.event_id p.category_id + n ≡ x.quota =
          rw (sym e_same, sym k_same) total in
        let same : x ≡ c = ground arith in rw (sym same) (ground arith)
    | inr miss ↦ row_room s m p cs c h adds.1 (ground arith)
  ]

  -- From an unsold event whose category ids are distinct, with the quota of each category as its
  -- stock in Redis, however the steps of any number of orders, releases and payments follow one
  -- another: PostgreSQL never answers OUT_OF_STOCK to an order for a category of the event that
  -- reserve.lua has granted.
  pub granted_in_stock :
      (cs : List TicketCategory) (s : Store) (ms : List Move) (n : ℕ) (settings : CoreSettings)
      (r : CreateOrderRequest) (draw : Draw) (now : ℕ) (c : TicketCategory)
      → DistinctIds cs
      → All Unsold cs
      → All (λ c. stock_of R s c.event_id c.id ≡ some (pos c.quota)) cs
      → let st = act_all R (opening R cs s) ms in
        let p = reserve_args settings r draw now in
        task_at n st.tasks ≡ some (committing settings r draw now)
        → find (is_row p) st.world.db.categories ≡ some c
        → reserve_order st.world.db p ≢ done ReserveResult.out_of_stock st.world.db
  granted_in_stock cs s ms n settings r draw now c d u h t f =
      let st = act_all R (opening R cs s) ms in
      let p = reserve_args settings r draw now in
      let holds =
        carried-le n st.tasks (committing settings r draw now) p.event_id p.category_id t in
      let room =
        row_room st.world.redis (on_the_way st.tasks) p st.world.db.categories c (ground arith)
          (places_add_up R cs s ms d u h) f in
      let (c', e) = has_some p st.world.db.categories c f room in in_stock st.world.db p c' e
