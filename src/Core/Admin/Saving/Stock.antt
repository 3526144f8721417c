-- ===== src/Core/Admin/Saving/Stock.antt =====
-- upsertEvent: the stock in Redis follows the quota in PostgreSQL.
use antretix.Common.{
  ℕ, ◌≡◌, refl, sym, ◌∙◌, ap, subst, some, List, [], ◌∷◌, map, arith, ◌==◌, if◌then◌else◌, find,
  Bool-cases, Option-cases, inl, inr,
}
use antretix.Common.Int.{ℤ, pos, pos_part, neg_part, ◌+ℤ◌, ◌-ℤ◌, eq_of_parts, +ℤ_parts, -ℤ_parts}
use antretix.Shared.Errors.{Outcome, returned, thrown, failed}
use antretix.Shared.Keys
use antretix.Redis.{Redis}
use antretix.Database.Schema.{TicketCategory, Database}
use antretix.Database.Functions.{Sql-cases}
use antretix.Lua.Stock.Exact.{stock_of}
use antretix.Core.Context.{World}
use antretix.Core.Events.{load_event_meta, sync_event_to_redis}
use antretix.Core.Events.Loading.{id-load_event_meta}
use antretix.Core.Events.Sync.{stock_of-sync_event_to_redis}
use antretix.Core.Reconcile.{db_available_of}
use antretix.Core.Admin.Saving.{
  EventInput, Ids, StockDelta, is_category, save_event, save_categories, pass_deltas, upsert_event,
  upsert_categories, sync_saved, event_row, replace_event,
}
use antretix.Core.Admin.Saving.Rows.{
  delta_of, add_zero, add_assoc, MovedIn, IsFresh, save_categories-MovedIn,
}

module _ (R : Redis) where
  open R use {Store, slot, incrby, slot-incrby}

  stock_of-pass_deltas :
      (ds : List StockDelta) (s : Store) (e k : ℕ) (n : ℤ)
      → stock_of R s e k ≡ some n
      → stock_of R (pass_deltas R s e ds) e k ≡ some (n +ℤ delta_of k ds)
  unfolding pass_deltas
  stock_of-pass_deltas [] s e k n h = h ∙ ap some (sym (add_zero n))
  stock_of-pass_deltas (d ∷ ds) s e k n h =
      let added : ℤ = if d.category_id == k then d.delta else pos 0 in
      let step : stock_of R (incrby s (Keys.stock e d.category_id) d.delta) e k
          ≡ some (n +ℤ added) =
        elim (Bool-cases (d.category_id == k)) [
          | inl same ↦ rw same (grind (arith, slot-incrby))
          | inr other ↦ rw (other, add_zero n) (grind (arith, slot-incrby))
        ] in
      stock_of-pass_deltas ds _ e k (n +ℤ added) step ∙ ap some (add_assoc n added (delta_of k ds))

drift :
    (n delta : ℤ) (c c' : TicketCategory)
    → c'.sold ≡ c.sold
    → c'.reserved ≡ c.reserved
    → pos c'.quota ≡ pos c.quota +ℤ delta
    → n +ℤ delta -ℤ db_available_of c' ≡ n -ℤ db_available_of c
drift n delta c c' sold reserved quota =
    let q' = pos c'.quota -ℤ pos c'.sold in
    let q = pos c.quota -ℤ pos c.sold in
    eq_of_parts _ _ (
      omega (
        arith,
        sold,
        reserved,
        ap pos_part quota,
        ap neg_part quota,
        +ℤ_parts (pos c.quota) delta,
        +ℤ_parts n delta,
        -ℤ_parts (pos c'.quota) (pos c'.sold),
        -ℤ_parts q' (pos c'.reserved),
        -ℤ_parts (pos c.quota) (pos c.sold),
        -ℤ_parts q (pos c.reserved),
        -ℤ_parts (n +ℤ delta) (q' -ℤ pos c'.reserved),
        -ℤ_parts n (q -ℤ pos c.reserved),
      ))

module _ (R : Redis) where
  -- A save that fails changes nothing. Else the row of the category has the counters that it had,
  -- and its stock in Redis is as far from what PostgreSQL has left as it was.
  abbrev pub KeepsDrift : World R → ℕ → ℕ → TicketCategory → ℤ → Outcome ℕ × World R → Type 0
  KeepsDrift w e k c n (failed, w') = w' ≡ w
  KeepsDrift w e k c n (thrown error, w') = ⊥
  KeepsDrift w e k c n (returned r, w') =
      (r ≡ e)
      × ((c' : TicketCategory) × (find (is_category e k) w'.db.categories ≡ some c')
          × (c'.sold ≡ c.sold)
          × (c'.reserved ≡ c.reserved)
          × ((m : ℤ) × (stock_of R w'.redis e k ≡ some m)
              × (m -ℤ db_available_of c' ≡ n -ℤ db_available_of c)))

  sync_saved-stock :
      (w : World R) (e now k : ℕ) (n : ℤ)
      → stock_of R w.redis e k ≡ some n
      → let w' = sync_saved R w e now in (w'.db ≡ w.db) × (stock_of R w'.redis e k ≡ some n)
  unfolding sync_saved
  sync_saved-stock w e now k n h = elim (Option-cases (load_event_meta w.db e)) [
    | inl gone ↦ rw (sync_saved, gone) (refl, h)
    | inr (meta, there) ↦
        let same = id-load_event_meta w.db e meta there in
        rw (sync_saved, there)
          (
            refl,
            subst (λ x. stock_of R (sync_event_to_redis R w.redis meta now).1 x k ≡ some n) same
                (stock_of-sync_event_to_redis R w.redis meta now k n
                  (subst (λ x. stock_of R w.redis x k ≡ some n) (sym same) h)),
          )
  ]

  upsert_categories-KeepsDrift :
      (before w : World R) (input : EventInput) (ids : Ids) (now e k : ℕ) (c : TicketCategory)
      (n : ℤ)
      → find (is_category e k) w.db.categories ≡ some c
      → IsFresh ids k
      → stock_of R w.redis e k ≡ some n
      → KeepsDrift before e k c n (upsert_categories R before w e input ids now)
  unfolding upsert_categories
  upsert_categories-KeepsDrift before w input ids now e k c n here fresh stock =
      let moved = save_categories-MovedIn input.categories w.db e k 0 ids c fresh here in
      elim (Sql-cases (save_categories w.db e ids 0 input.categories)) [
        | inl raised ↦ rw (upsert_categories, raised) refl
        | inr (deltas, db, saved) ↦
            let (c', found, sold, reserved, quota) = subst (MovedIn e k c) saved moved in
            let passed = stock_of-pass_deltas R deltas w.redis e k n stock in
            let w1 : World R = record w { redis = pass_deltas R w.redis e deltas; db = db } in
            let (same_db, kept) = sync_saved-stock w1 e now k (n +ℤ delta_of k deltas) passed in
            rw (upsert_categories, saved)
              (
                refl,
                (
                  c',
                  ap (λ d. find (is_category e k) (Database.categories d)) same_db ∙ found,
                  sold,
                  reserved,
                  (
                    n +ℤ delta_of k deltas,
                    kept,
                    drift n (delta_of k deltas) c c' sold reserved quota,
                  ),
                ),
              )
      ]

  -- An event that is saved again, when the identifiers drawn are new and the category has a stock
  -- in Redis: either the save fails and changes nothing, or the category has its counters as
  -- before and its stock follows the quota, so that Redis is as far from what PostgreSQL has left
  -- as it was before, whatever else the input changes.
  pub upsert_event_drift :
      (w : World R) (input : EventInput) (ids : Ids) (now e k : ℕ) (c : TicketCategory) (n : ℤ)
      → input.id ≡ some e
      → find (is_category e k) w.db.categories ≡ some c
      → IsFresh ids k
      → stock_of R w.redis e k ≡ some n
      → KeepsDrift w e k c n (upsert_event R w input ids now)
  unfolding upsert_event upsert_categories save_event
  upsert_event_drift w input ids now e k c n again here fresh stock =
      elim (Option-cases (find (λ x. x.id == e) w.db.events)) [
        | inl absent ↦ rw (upsert_event, save_event, again, absent) refl
        | inr (old, there) ↦
            rw (upsert_event, save_event, again, there)
              (upsert_categories-KeepsDrift w
                (record w {
                  db = record w.db { events = map (replace_event (event_row input e)) w.db.events };
                })
                input ids now e k c n here fresh stock)
      ]
