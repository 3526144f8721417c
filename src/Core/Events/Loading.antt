-- ===== src/Core/Events/Loading.antt =====
-- loadEventMeta gives the event that it was asked for.
use antretix.Common.{
  ℕ, ◌≡◌, refl, sym, ap, ◌∙◌, keep, none, some, arith, ◌==◌, Option-cases, inl, inr, find,
  find_holds,
}
use antretix.Database.Schema.{Event, Database}
use antretix.Core.Events.{EventMeta, load_event_meta, meta_of, in_sale_order}

pub id-load_event_meta :
    (db : Database) (e : ℕ) (meta : EventMeta)
    → load_event_meta db e ≡ some meta
    → meta.event.id ≡ e
unfolding load_event_meta meta_of
id-load_event_meta db e meta h = elim (Option-cases (find (λ x. x.id == e) db.events)) [
  | inl gone ↦ let nothing : load_event_meta db e ≡ none = rw (load_event_meta, gone) refl in cc
  | inr (event, there) ↦
      let same = find_holds (λ x. x.id == e) db.events event there in
      let loaded = meta_of event (in_sale_order (keep (λ c. c.event_id == e) db.categories)) in
      let it : load_event_meta db e ≡ some loaded = rw (load_event_meta, there) refl in
      let found : loaded ≡ meta = cc in
      ap (λ m. Event.id (EventMeta.event m)) (sym found) ∙ ground arith
]
