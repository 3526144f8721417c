-- ===== src/Core/Interleaving.antt =====
-- packages/core/src/orders.ts: createOrder and releaseOrder of many callers at the same time. Redis
-- runs a script, and PostgreSQL a statement, in one step; between two steps of a request any other
-- may go on. What a request answers is in Core/Orders and Core/Releases. The queries that only read
-- the order back are left out.
pub mod Moving
pub mod Advancing
pub mod Reaching
pub mod Granting
pub mod Examples
use antretix.Common.{
  ℕ, zero, suc, ◌+◌, Bool, true, false, ◌&&◌, ◌||◌, Option, none, some, List, [], ◌∷◌, ◌++◌, ◌==◌,
  if◌then◌else◌, find,
}
use antretix.Common.Int.{ℤ, negsuc, eqb_ℤ}
use antretix.Shared.Keys
use antretix.Shared.Policy.{check_per_user_limit}
use antretix.Redis.{Redis}
use antretix.Database.Schema.{TicketCategory}
use antretix.Database.Functions.{Sql, ReserveResult, done, exception, reserve_order}
use antretix.Database.Settlement
use antretix.Database.Settlement.{ReleaseReason, ReleasedRow, pay_order}
use antretix.Database.Consistency.{after}
use antretix.Lua.Stock.{reserve, release}
use antretix.Core.Context.{CoreSettings, World}
use antretix.Core.OrderViews.{find_by_idempotency_key}
use antretix.Core.Orders.{CreateOrderRequest, Draw, reserve_args, is_limit_exceeded, record_stat}
use antretix.Core.Releases.{requires_expired}

-- What a request still has to do: call reserve.lua, run antretix_reserve_order, count the order in
-- the statistics, or give tickets back with release.lua.
pub data Task : Type 0 where
  asking committing : CoreSettings → CreateOrderRequest → Draw → ℕ → Task
  recording : ℕ → ℕ → ℕ → Task
  giving_back : CreateOrderRequest → Task
  restocking : List ReleasedRow → Task

pub record Running (R : Redis) : Type 0 where
  pub world : World R
  pub tasks : List Task

pub data Move : Type 0 where
  create : CoreSettings → CreateOrderRequest → Draw → ℕ → Move
  release_for : ℕ → ReleaseReason → ℕ → Move
  pay : ℕ → ℕ → List ℕ → ℕ → Move
  goes_on : ℕ → Move  -- the task at the index

-- reserve.lua has granted unless it answers -1, -2 or -3.
abbrev pub is_granted : ℤ → Bool
is_granted reply =
    if eqb_ℤ reply (negsuc 0) || eqb_ℤ reply (negsuc 1) || eqb_ℤ reply (negsuc 2)
    then false
    else true

-- What createOrder does before its first wait on Redis: the tasks that it leaves.
unfoldable pub entered :
    {R : Redis} → World R → CoreSettings → CreateOrderRequest → Draw → ℕ → List Task
entered w settings r draw now =
    elim (find_by_idempotency_key w.db r.user_id r.idempotency_key now) [
      | some view ↦ []
      | none ↦ elim (find (λ c. c.id == r.category_id) r.meta.categories) [
        | none ↦ []
        | some c ↦
            if is_limit_exceeded (check_per_user_limit 0 r.qty r.meta.event.max_per_user)
            then []
            else asking settings r draw now ∷ []
      ]
    ]

module _ (R : Redis) where
  open R use {Store}

  -- Once reserve.lua has answered.
  abbrev pub asked :
      World R → CoreSettings → CreateOrderRequest → Draw → ℕ → ℤ × Store → World R × List Task
  asked w settings r draw now (reply, s) =
      (record w { redis = s }, if is_granted reply then committing settings r draw now ∷ [] else [])

  -- Once antretix_reserve_order has answered; the catch clause gives the stock back.
  abbrev pub committed :
      World R → CreateOrderRequest → Draw → ℕ → Sql ReserveResult → World R × List Task
  committed w r draw now (done ReserveResult.ok db) =
      (record w { db = db }, recording r.meta.event.id draw.order_id now ∷ [])
  committed w r draw now (done ReserveResult.limit_exceeded db) =
      (record w { db = db }, giving_back r ∷ [])
  committed w r draw now (done ReserveResult.out_of_stock db) =
      (record w { db = db }, giving_back r ∷ [])
  committed w r draw now exception = (w, giving_back r ∷ [])

  -- One step of a task, and what is left of it.
  unfoldable pub advance : Task → World R → World R × List Task
  advance (asking settings r draw now) w =
      let e = r.meta.event.id in
      asked w settings r draw now (
        reserve R w.redis (Keys.stock e r.category_id) (Keys.bought e r.user_id) r.qty
          r.meta.event.max_per_user)
  advance (committing settings r draw now) w =
      committed w r draw now (reserve_order w.db (reserve_args settings r draw now))
  advance (recording event order now) w =
      (record w { redis = record_stat R w.redis (Keys.order_stats event) order now }, [])
  advance (giving_back r) w =
      let e = r.meta.event.id in
      (
        record w {
          redis =
              (release R w.redis (Keys.stock e r.category_id) (Keys.bought e r.user_id) r.qty).1;
        },
        [],
      )
  advance (restocking []) w = (w, [])
  advance (restocking (row ∷ rows)) w = (
    record w {
      redis =
          (release R w.redis (Keys.stock row.event_id row.category_id)
            (Keys.bought row.event_id row.user_id) row.qty).1;
    },
    restocking rows ∷ [],
  )

  -- The task at the index takes one step.
  unfoldable pub step_at : ℕ → List Task → World R → World R × List Task
  step_at n [] w = (w, [])
  step_at zero (t ∷ ts) w = let (w', left) = advance t w in (w', left ++ ts)
  step_at (suc n) (t ∷ ts) w = let (w', ts') = step_at n ts w in (w', t ∷ ts')

  abbrev pub freed : Running R → Sql (List ReleasedRow) → Running R
  freed st exception = st
  freed st (done rows db) = record {
    world = record (st.world) { db = db };
    tasks = restocking rows ∷ st.tasks;
  }

  unfoldable pub act : Running R → Move → Running R
  act st (create settings r draw now) = record st {
    tasks = entered st.world settings r draw now ++ st.tasks;
  }
  act st (release_for order reason now) =
      freed st (Settlement.release_order st.world.db order reason (requires_expired reason) now)
  act st (pay order ref codes now) = record st {
    world = record (st.world) {
      db = after st.world.db (pay_order st.world.db order ref codes now);
    };
  }
  act st (goes_on n) = let (w, ts) = step_at n st.tasks st.world in record { world = w; tasks = ts }

  unfoldable pub act_all : Running R → List Move → Running R
  act_all st [] = st
  act_all st (m ∷ ms) = act_all (act st m) ms

-- The tickets of a category that a task holds: taken in Redis and not yet in PostgreSQL, or freed
-- in PostgreSQL and not yet in Redis.
abbrev pub single : ℕ → ℕ → ℕ → ℕ → ℕ → ℕ
single e k qty event category = if (event == e) && (category == k) then qty else 0

abbrev pub rows_carried : List ReleasedRow → ℕ → ℕ → ℕ
rows_carried [] event category = 0
rows_carried (row ∷ rows) event category =
    single row.event_id row.category_id row.qty event category + rows_carried rows event category

abbrev pub request_carried : CreateOrderRequest → ℕ → ℕ → ℕ
request_carried r = single r.meta.event.id r.category_id r.qty

abbrev pub carried : Task → ℕ → ℕ → ℕ
carried (committing settings r draw now) event category = request_carried r event category
carried (giving_back r) event category = request_carried r event category
carried (restocking rows) event category = rows_carried rows event category
carried _ event category = 0

abbrev pub on_the_way : List Task → ℕ → ℕ → ℕ
on_the_way [] event category = 0
on_the_way (t ∷ ts) event category = carried t event category + on_the_way ts event category
