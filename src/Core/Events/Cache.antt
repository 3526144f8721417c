-- ===== src/Core/Events/Cache.antt =====
-- events.ts: EventMetaCache, which keeps what it read of an event for a short time. A failing query
-- is not modelled, so that what an entry promises is the value of the query.
use antretix.Common.{
  ℕ, ◌+◌, ◌≡◌, refl, not, Option, none, some, List, [], ◌∷◌, ltb, ◌==◌, if◌then◌else◌, keep, find,
  arith,
}
use antretix.Database.Schema.{Database}
use antretix.Core.Events.{EventMeta, load_event_meta}

pub record CacheEntry : Type 0 where
  pub event_id : ℕ
  pub loaded_at : ℕ
  pub value : Option EventMeta

-- The entries, the newest first: a new one hides an old one of its event.
abbrev pub Cache : Type 0
Cache = List CacheEntry

-- The value of an entry that is younger than ttl.
abbrev fresh_value : ℕ → ℕ → Option CacheEntry → Option (Option EventMeta)
fresh_value ttl now none = none
fresh_value ttl now (some entry) =
    if ltb now (entry.loaded_at + ttl) then some entry.value else none

unfoldable pub get_meta : ℕ → Cache → Database → ℕ → ℕ → Option EventMeta × Cache
get_meta ttl cache db event_id now =
    elim (fresh_value ttl now (find (λ entry. entry.event_id == event_id) cache)) [
      | some value ↦ (value, cache)
      | none ↦
          let value = load_event_meta db event_id in
          (value, record { event_id = event_id; loaded_at = now; value = value } ∷ cache)
    ]

unfoldable pub invalidate : Cache → ℕ → Cache
invalidate cache event_id = keep (λ entry. not (entry.event_id == event_id)) cache

find-invalidate :
    (event_id : ℕ) (cache : Cache)
    → find (λ entry. entry.event_id == event_id) (invalidate cache event_id) ≡ none
unfolding invalidate
find-invalidate event_id [] = refl
find-invalidate event_id (entry ∷ cache) = ground (arith, find-invalidate event_id cache)

-- After an event is invalidated, what the cache gives of it is what the database has, whatever it
-- had kept, and however long it keeps it.
pub get_meta-invalidate :
    (ttl : ℕ) (cache : Cache) (db : Database) (event_id now : ℕ)
    → (get_meta ttl (invalidate cache event_id) db event_id now).0 ≡ load_event_meta db event_id
unfolding get_meta
get_meta-invalidate ttl cache db event_id now = rw (get_meta, find-invalidate event_id cache) refl
