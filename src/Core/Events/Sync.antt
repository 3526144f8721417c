-- ===== src/Core/Events/Sync.antt =====
-- What syncEventToRedis writes.
use antretix.Common.{
  ℕ, ◌-◌, ◌≡◌, refl, ◌∙◌, ap, false, Option, none, some, List, [], ◌∷◌, arith, ◌==◌, All,
}
use antretix.Common.Int.{ℤ, pos}
use antretix.Shared.Constants.{QueueStatus}
use antretix.Shared.Keys
use antretix.Shared.Keys.{Key, key_eq}
use antretix.Redis.{Redis}
use antretix.Database.Schema.{TicketCategory}
use antretix.Core.Events.{
  EventMeta, scheduled_queue_status, next_queue_status, read_queue_status, write_event_config,
  init_stock, add_categories, set_status_if_new, sync_event_to_redis,
}
use antretix.Core.Events.Schedule.{next_queue_status_idem}
use antretix.Database.Consistency.{DistinctIds}
use antretix.Lua.Stock.Exact.{stock_of}

module _ (R : Redis) where
  open R use {Store, slot, set_number_nx, slot-set_number_nx, slot-sadd, slot-hset, slot-set_text}

  slot-init_stock :
      (cs : List TicketCategory) (s : Store) (e : ℕ) (j : Key)
      → ((c : ℕ) → key_eq (Keys.stock e c) j ≡ false)
      → slot (init_stock R s e cs) j ≡ slot s j
  unfolding init_stock
  slot-init_stock [] s e j h = refl
  slot-init_stock (c ∷ cs) s e j h = slot-init_stock cs _ e j h ∙ rw (slot-set_number_nx, h c.id)

  slot-add_categories :
      (cs : List TicketCategory) (s : Store) (e : ℕ) (j : Key)
      → key_eq (Keys.categories e) j ≡ false
      → slot (add_categories R s e cs) j ≡ slot s j
  unfolding add_categories
  slot-add_categories [] s e j h = refl
  slot-add_categories (c ∷ cs) s e j h = slot-add_categories cs _ e j h ∙ rw (slot-sadd, h)

  pub slot-write_event_config :
      (s : Store) (meta : EventMeta) (j : Key)
      → key_eq (Keys.config meta.event.id) j ≡ false
      → slot (write_event_config R s meta) j ≡ slot s j
  unfolding write_event_config
  slot-write_event_config s meta j h = grind (arith, slot-hset)

  -- The stock that a category has after the SET NX.
  abbrev pub kept_or : Option ℤ → TicketCategory → ℤ
  kept_or none c = pos (c.quota - c.sold - c.reserved)
  kept_or (some n) c = n

  stock_of-init_stock_ne :
      (cs : List TicketCategory) (s : Store) (e k : ℕ)
      → All (λ c. (c.id == k) ≡ false) cs
      → stock_of R (init_stock R s e cs) e k ≡ stock_of R s e k
  unfolding init_stock
  stock_of-init_stock_ne [] s e k h = refl
  stock_of-init_stock_ne (c ∷ cs) s e k h =
      stock_of-init_stock_ne cs _ e k h.1 ∙ grind (arith, slot-set_number_nx)

  stock_of-set_number_nx :
      (c : TicketCategory) (s : Store) (e : ℕ)
      → stock_of R
          (set_number_nx s (Keys.stock e c.id) (pos (c.quota - c.sold - c.reserved)))
          e
          c.id
        ≡ some (kept_or (stock_of R s e c.id) c)
  stock_of-set_number_nx c s e = grind (arith, slot-set_number_nx)

  -- What each category's stock is once all of them are looked at.
  abbrev pub Stocked : Store → ℕ → Store → List TicketCategory → Type 0
  Stocked s e s' = All (λ c. stock_of R s' e c.id ≡ some (kept_or (stock_of R s e c.id) c))

  Stocked-later :
      (cs : List TicketCategory) (c : TicketCategory) (s s' : Store) (e : ℕ)
      → All (λ d. (d.id == c.id) ≡ false) cs
      → Stocked (set_number_nx s (Keys.stock e c.id) (pos (c.quota - c.sold - c.reserved))) e s' cs
      → Stocked s e s' cs
  Stocked-later [] c s s' e n h = tt
  Stocked-later (d ∷ cs) c s s' e n h =
      (h.0 ∙ grind (arith, slot-set_number_nx), Stocked-later cs c s s' e n.1 h.1)

  init_stock-Stocked :
      (cs : List TicketCategory) (s : Store) (e : ℕ)
      → DistinctIds cs
      → Stocked s e (init_stock R s e cs) cs
  unfolding init_stock
  init_stock-Stocked [] s e d = tt
  init_stock-Stocked (c ∷ cs) s e d = (
    stock_of-init_stock_ne cs _ e c.id d.0 ∙ stock_of-set_number_nx c s e,
    Stocked-later cs c s _ e d.0 (init_stock-Stocked cs _ e d.1),
  )

  Stocked-same :
      (cs : List TicketCategory) (s s' s'' : Store) (e : ℕ)
      → ((c : ℕ) → stock_of R s'' e c ≡ stock_of R s' e c)
      → Stocked s e s' cs
      → Stocked s e s'' cs
  Stocked-same [] s s' s'' e same h = tt
  Stocked-same (c ∷ cs) s s' s'' e same h = (same c.id ∙ h.0, Stocked-same cs s s' s'' e same h.1)

  -- The store once the stock, the categories and the configuration are written.
  abbrev configured : Store → EventMeta → Store
  configured s meta =
      let id = meta.event.id in
      write_event_config R (add_categories R (init_stock R s id meta.categories) id meta.categories)
        meta

  read_queue_status-configured :
      (s : Store) (meta : EventMeta)
      → read_queue_status R (configured s meta) meta.event.id ≡ read_queue_status R s meta.event.id
  unfolding read_queue_status
  read_queue_status-configured s meta =
      let id = meta.event.id in
      rw (
        slot-write_event_config _ meta (Keys.status id) refl,
        slot-add_categories meta.categories _ id (Keys.status id) refl,
        slot-init_stock meta.categories s id (Keys.status id) (λ c. refl),
      )

  read_queue_status-set_status :
      (s : Store) (e : ℕ) (next : QueueStatus)
      → read_queue_status R (set_status_if_new R s e (read_queue_status R s e) next) e ≡ some next
  unfolding read_queue_status set_status_if_new
  read_queue_status-set_status s e next = grind (arith, slot-set_text)

  stock_of-set_status :
      (s : Store) (e c : ℕ) (current : Option QueueStatus) (next : QueueStatus)
      → stock_of R (set_status_if_new R s e current next) e c ≡ stock_of R s e c
  unfolding set_status_if_new
  stock_of-set_status s e c current next = grind (arith, slot-set_text)

  stock_of-configured :
      (s : Store) (meta : EventMeta) (c : ℕ)
      → stock_of R (configured s meta) meta.event.id c
        ≡ stock_of R (init_stock R s meta.event.id meta.categories) meta.event.id c
  stock_of-configured s meta c =
      let id = meta.event.id in
      ap {B = Option ℤ} (λ h. h.counter)
        (slot-write_event_config
            (add_categories R (init_stock R s id meta.categories) id meta.categories) meta
            (Keys.stock id c) refl
          ∙ slot-add_categories meta.categories (init_stock R s id meta.categories) id
              (Keys.stock id c) refl)

  -- A synchronisation of an event whose category ids are distinct answers the status that the
  -- schedule and the status in Redis give together, and leaves it in Redis; it never overwrites a
  -- stock, and starts a missing one at what the database has left; another one at the same time
  -- answers the same.
  pub sync_event_to_redis_result :
      (s : Store) (meta : EventMeta) (now : ℕ)
      → DistinctIds meta.categories
      → let id = meta.event.id in
        let (next, s') = sync_event_to_redis R s meta now in
        (next
          ≡ next_queue_status (read_queue_status R s id) (scheduled_queue_status meta.event now))
        × (read_queue_status R s' id ≡ some next)
        × Stocked s id s' meta.categories
        × ((sync_event_to_redis R s' meta now).0 ≡ next)
  unfolding sync_event_to_redis
  sync_event_to_redis_result s meta now d =
      let id = meta.event.id in
      let base = configured s meta in
      let current = read_queue_status R base id in
      let asked = scheduled_queue_status meta.event now in
      let s' = set_status_if_new R base id current (next_queue_status current asked) in
      let written = read_queue_status-set_status base id (next_queue_status current asked) in
      (
        ap (λ q. next_queue_status q asked) (read_queue_status-configured s meta),
        written,
        Stocked-same meta.categories s (init_stock R s id meta.categories) s' id
            (λ c. stock_of-set_status base id c current _ ∙ stock_of-configured s meta c)
            (init_stock-Stocked meta.categories s id d),
        ap (λ q. next_queue_status q asked) (read_queue_status-configured s' meta ∙ written)
            ∙ next_queue_status_idem current asked,
      )

  stock_of-init_stock_present :
      (cs : List TicketCategory) (s : Store) (e k : ℕ) (n : ℤ)
      → stock_of R s e k ≡ some n
      → stock_of R (init_stock R s e cs) e k ≡ some n
  unfolding init_stock
  stock_of-init_stock_present [] s e k n h = h
  stock_of-init_stock_present (c ∷ cs) s e k n h =
      stock_of-init_stock_present cs _ e k n (grind (arith, slot-set_number_nx))

  -- A stock that is there stays as it is.
  pub stock_of-sync_event_to_redis :
      (s : Store) (meta : EventMeta) (now k : ℕ) (n : ℤ)
      → stock_of R s meta.event.id k ≡ some n
      → stock_of R (sync_event_to_redis R s meta now).1 meta.event.id k ≡ some n
  unfolding sync_event_to_redis
  stock_of-sync_event_to_redis s meta now k n h =
      stock_of-set_status (configured s meta) meta.event.id k _ _
      ∙ stock_of-configured s meta k
      ∙ stock_of-init_stock_present meta.categories s meta.event.id k n h
