-- ===== src/Worker/Admitting/SoldOut.antt =====
-- jobs.ts: an event is closed as sold out only when PostgreSQL has sold every ticket.
use antretix.Common.{
  ℕ, ◌+◌, ◌≤◌, ◌≡◌, ◌⊎◌, refl, sym, ◌∙◌, ap, Bool, true, false, Option, some, none, List, [], ◌∷◌,
  arith, ltb, ◌==◌, Bool-cases, inl, inr, if◌then◌else◌, All, All-keep, subst, ◌≢◌,
}
use antretix.Common.Int.{pos, leb_ℤ}
use antretix.Shared.Constants.{QueueStatus, sold_out}
use antretix.Shared.Keys
use antretix.Shared.Keys.{Key}
use antretix.Redis.{Text, Redis, queue_status}
use antretix.Database.Schema.{TicketCategory, Event, Database}
use antretix.Database.Consistency.{IsConsistent, Counted}
use antretix.Lua.Leader.{leader}
use antretix.Lua.Leader.Lock.{slot-leader}
use antretix.Lua.Queue.{admit}
use antretix.Lua.Queue.Frame.{status_of, status_of-admit}
use antretix.Core.Context.{CoreSettings, World}
use antretix.Core.Events.{
  EventMeta, scheduled_queue_status, next_queue_status, read_queue_status, same_queue_status,
  admit_per_sec_field, max_active_field, load_event_meta,
}
use antretix.Worker.{Worker, leader_ttl_ms}
use antretix.Worker.Admitting.{
  is_on_sale, quota_of, sold_of, categories_of, follow_schedule, check_sold_out, lead_event,
  admit_event, config_number, confirmed_status, change_status, is_too_soon, look_sold_out,
  close_sale,
}

-- Every ticket of a category is in a PAID order.
abbrev pub IsSoldOut : TicketCategory → Type 0
IsSoldOut c = (c.sold ≡ c.quota) × (c.reserved ≡ 0)

-- Within the quotas, as many sold as there are means that each category is sold out.
totals_exhausted :
    (cs : List TicketCategory)
    → All (λ c. c.sold + c.reserved ≤ c.quota) cs
    → (sold_of cs ≤ quota_of cs) × (quota_of cs ≤ sold_of cs → All IsSoldOut cs)
totals_exhausted [] h = (omega arith, λ l. tt)
totals_exhausted (c ∷ cs) h =
    let (less, each) = totals_exhausted cs h.1 in
    (
      omega (arith, h.0, less),
      λ l. (
        (omega (arith, h.0, less, l), omega (arith, h.0, less, l)),
        each (omega (arith, h.0, less, l)),
      ),
    )

within_quotas :
    (db : Database) (event : ℕ)
    → IsConsistent db
    → All (λ c. c.sold + c.reserved ≤ c.quota) (categories_of db event)
within_quotas db event consistent =
    All-keep (Counted db.orders db.items) (λ c. c.sold + c.reserved ≤ c.quota)
      (λ c. c.event_id == event) (λ c counted. counted.within_quota) db.categories
      consistent.counted

never_sold_out :
    (e : Event) (q : QueueStatus) (now : ℕ)
    → q ≢ sold_out
    → next_queue_status (some q) (scheduled_queue_status e now) ≢ sold_out
unfolding next_queue_status scheduled_queue_status
never_sold_out e q now h k = ground arith

confirmed_unsold :
    (fresh : Option EventMeta) (q : QueueStatus) (now : ℕ)
    → q ≢ sold_out
    → confirmed_status q fresh now ≢ sold_out
confirmed_unsold none q now h = h
confirmed_unsold (some fresh) q now h = never_sold_out fresh.event q now h

module _ (R : Redis) where
  open R use {
    Store, slot, slot-zadd, slot-set_text_px, slot-zrem, slot-zpopmin, slot-zremrangebyscore,
    slot-set_text, slot-pexpire,
  }

  -- The status is one, and not that of an event that is sold out.
  abbrev IsUnsold : Store → ℕ → Type 0
  IsUnsold s e = (q : QueueStatus) × (status_of R s e ≡ some (queue_status q)) × (q ≢ sold_out)

  change_status-IsUnsold :
      (s : Store) (e : ℕ) (current confirmed : QueueStatus)
      → status_of R s e ≡ some (queue_status current)
      → current ≢ sold_out
      → confirmed ≢ sold_out
      → IsUnsold (change_status R s e current confirmed) e
  unfolding change_status
  change_status-IsUnsold s e current confirmed before h k =
      elim (Bool-cases (same_queue_status confirmed current)) [
        | inl same ↦ rw same (current, before, h)
        | inr other ↦ rw other (confirmed, grind (arith, slot-set_text), k)
      ]

  -- The status that the schedule leaves is the one before it, or one that a schedule asks for.
  follow_schedule_result :
      (worker : Worker) (w : World R) (meta : EventMeta) (now : ℕ) (q : QueueStatus)
      → status_of R w.redis meta.event.id ≡ some (queue_status q)
      → q ≢ sold_out
      → let w1 = (follow_schedule R worker w meta now).1 in
        (w1.db ≡ w.db) × IsUnsold w1.redis meta.event.id
  unfolding follow_schedule read_queue_status
  follow_schedule_result worker w meta now q before h =
      let fresh = load_event_meta w.db meta.event.id in
      let next = next_queue_status (some q) (scheduled_queue_status meta.event now) in
      elim (Bool-cases (same_queue_status next q)) [
        | inl same ↦ rw (follow_schedule, before, same) (refl, (q, before, h))
        | inr other ↦
            rw (follow_schedule, before, other)
              (
                refl,
                change_status-IsUnsold w.redis meta.event.id q (confirmed_status q fresh now) before
                    h (confirmed_unsold fresh q now h),
              )
      ]

  -- A look changes nothing, or it closes the sale of an event that has sold every ticket.
  pub check_sold_out_result :
      (worker : Worker) (w : World R) (meta : EventMeta) (now : ℕ)
      → let w1 = (check_sold_out R worker w meta now).1 in
        let cs = categories_of w.db meta.event.id in
        (w1 ≡ w) ⊎ ((w1 ≡ close_sale R w meta.event.id) × (quota_of cs ≤ sold_of cs))
  unfolding check_sold_out look_sold_out
  check_sold_out_result worker w meta now =
      let cs = categories_of w.db meta.event.id in
      elim (Bool-cases (is_too_soon now (worker.last_sold_out_check meta.event.id))) [
        | inl soon ↦ rw soon (inl refl)
        | inr due ↦ elim (Bool-cases (is_on_sale (read_queue_status R w.redis meta.event.id))) [
          | inl on ↦ elim (Bool-cases (ltb (sold_of cs) (quota_of cs))) [
            | inl left ↦ rw (due, on, left) (inl refl)
            | inr gone ↦ rw (due, on, gone) (inr (refl, ground arith))
          ]
          | inr off ↦ rw (due, off) (inl refl)
        ]
      ]

  contradicts :
      (s : Store) (e : ℕ) → IsUnsold s e → status_of R s e ≡ some (queue_status sold_out) → ⊥
  contradicts s e (q, at, unsold) closed_now = unsold (ground arith)

  lead_event_result :
      (settings : CoreSettings) (worker : Worker) (w : World R) (meta : EventMeta) (now : ℕ)
      → IsUnsold w.redis meta.event.id
      → status_of R (lead_event R settings worker w meta now).1.redis meta.event.id
        ≡ some (queue_status sold_out)
      → let cs = categories_of w.db meta.event.id in quota_of cs ≤ sold_of cs
  unfolding lead_event
  lead_event_result settings worker w meta now (q, before, h) closed_now =
      let (worker1, w1) = follow_schedule R worker w meta now in
      let (same_db, unsold) = follow_schedule_result worker w meta now q before h in
      let config = slot w1.redis (Keys.config meta.event.id) in
      let rate = config_number (config.field admit_per_sec_field) meta.event.admit_per_sec in
      let max_active = config_number (config.field max_active_field) meta.event.max_active in
      let (result, s2) =
        admit R w1.redis meta.event.id meta.stock_keys now rate max_active
          settings.session_ttl_ms in
      let still =
        status_of-admit R w1.redis meta.event.id now rate max_active settings.session_ttl_ms
          meta.stock_keys in
      let w2 : World R = record w1 { redis = s2 } in
      let refuted = contradicts s2 meta.event.id (unsold.0, still ∙ unsold.1, unsold.2) in
      let taken : Bool → World R =
        λ b. (if b then check_sold_out R worker1 w2 meta now else (worker1, w2)).1 in
      let shown : (b : Bool)
          → leb_ℤ result.stock_total (pos 0) ≡ b
          → status_of R (taken b).redis meta.event.id ≡ some (queue_status sold_out) =
        λ b e.
          subst (λ b. status_of R (taken b).redis meta.event.id ≡ some (queue_status sold_out)) e
            closed_now in
      elim (Bool-cases (leb_ℤ result.stock_total (pos 0))) [
        | inl empty ↦ elim (check_sold_out_result worker1 w2 meta now) [
          | inl same ↦ absurd (
              refuted
                (ap (λ x. status_of R (World.redis x) meta.event.id) (sym same) ∙ shown true empty))
          | inr (shut, sold) ↦
              subst
                (λ db.
                  quota_of (categories_of db meta.event.id)
                  ≤ sold_of (categories_of db meta.event.id))
                same_db sold
        ]
        | inr stocked ↦ absurd (refuted (shown false stocked))
      ]

  -- A tick on consistent tables that leaves the queue of an event SOLD_OUT, which it was not
  -- before: then every category of the event has sold its whole quota, and no ticket of it is
  -- reserved.
  pub admit_event_sold_out :
      (settings : CoreSettings) (worker : Worker) (w : World R) (meta : EventMeta) (now : ℕ)
      (q : QueueStatus)
      → IsConsistent w.db
      → status_of R w.redis meta.event.id ≡ some (queue_status q)
      → q ≢ sold_out
      → status_of R (admit_event R settings worker w meta now).1.redis meta.event.id
        ≡ some (queue_status sold_out)
      → All IsSoldOut (categories_of w.db meta.event.id)
  unfolding admit_event
  admit_event_sold_out settings worker w meta now q consistent before h closed_now =
      let (is_leader, s1) =
        leader R w.redis (Keys.admission_lock meta.event.id) worker.instance_id leader_ttl_ms in
      let w1 : World R = record w { redis = s1 } in
      let same =
        ap {B = Option Text} (λ h. h.text)
          (slot-leader R w.redis (Keys.admission_lock meta.event.id) worker.instance_id
            leader_ttl_ms (Keys.status meta.event.id) refl) in
      let taken : Bool → World R =
        λ b. (if b then lead_event R settings worker w1 meta now else (worker, w1)).1 in
      let shown : (b : Bool)
          → is_leader ≡ b
          → status_of R (taken b).redis meta.event.id ≡ some (queue_status sold_out) =
        λ b e.
          subst (λ b. status_of R (taken b).redis meta.event.id ≡ some (queue_status sold_out)) e
            closed_now in
      (totals_exhausted (categories_of w.db meta.event.id)
          (within_quotas w.db meta.event.id consistent)).1
        (elim (Bool-cases is_leader) [
          | inl leads ↦
              lead_event_result settings worker w1 meta now (q, same ∙ before, h) (shown true leads)
          | inr follows ↦
              absurd (contradicts s1 meta.event.id (q, same ∙ before, h) (shown false follows))
        ])
