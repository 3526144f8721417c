-- ===== src/Lua/Queue/Frame.antt =====
-- admit.lua: what a tick leaves alone.
use antretix.Common.{
  some, true, inl, inr, ℕ, ◌+◌, ◌≡◌, refl, ◌∙◌, ap, Option, List, [], ◌∷◌, arith, take, length,
}
use antretix.Common.Int.{ℤ, pos_part}
use antretix.Shared.Keys
use antretix.Shared.Keys.{Key}
use antretix.Redis.{Redis, Entry, Text}
use antretix.Lua.Queue.{
  join, join_in, enqueue, is_admitted, admit, admit_in, admit_open, admit_front, admit_users,
  admit_user, free_slots, stock_total,
}
use antretix.Shared.Constants.{QueueStatus}
use antretix.Redis.{queue_status}
use antretix.Lua.Queue.{join_phase, JoinReply}
use antretix.Lua.Queue.Joining.{join_in_cases}
use antretix.Lua.Queue.Admission.{slot-record_admits}

module _ (R : Redis) where
  open R use {
    Store, slot, zpopmin, zremrangebyscore, slot-zadd, slot-zadd_nx, slot-set_text_px, slot-zrem,
    slot-zpopmin, slot-zremrangebyscore,
  }

  abbrev pub status_of : Store → ℕ → Option Text
  status_of s e = (slot s (Keys.status e)).text

  status_of-admit_users :
      (es : List Entry) (s : Store) (e expires_at ttl : ℕ)
      → status_of (admit_users R s e expires_at ttl es) e ≡ status_of s e
  unfolding admit_users admit_user
  status_of-admit_users [] s e expires_at ttl = refl
  status_of-admit_users (x ∷ es) s e expires_at ttl =
      status_of-admit_users es _ e expires_at ttl
      ∙ grind (arith, slot-zadd, slot-set_text_px, slot-zrem)

  status_of-admit_front :
      (s : Store) (e now ttl active slots : ℕ) (stock : ℤ)
      → status_of (admit_front R s e now ttl active slots stock).1 e ≡ status_of s e
  unfolding admit_front
  status_of-admit_front s e now ttl active slots stock =
      let popped = take slots (slot s (Keys.queue e)).zset in
      let s1 = zpopmin s (Keys.queue e) slots in
      ap (λ h. h.text) (slot-record_admits R _ e now (length popped) (Keys.status e) refl)
      ∙ status_of-admit_users popped s1 e (now + ttl) ttl
      ∙ grind (arith, slot-zpopmin)

  status_of-admit_in :
      (s : Store) (e now rate max_active ttl active : ℕ) (stock : ℤ) (text : Option Text)
      → status_of (admit_in R s e now rate max_active ttl active stock text).1 e ≡ status_of s e
  unfolding admit_in admit_open
  status_of-admit_in s e now rate max_active ttl active stock text = ground (
    arith,
    status_of-admit_front s e now ttl active (pos_part (free_slots rate max_active active stock))
        stock,
  )

  -- A tick never changes the status.
  pub status_of-admit :
      (s : Store) (e now rate max_active ttl : ℕ) (stock_keys : List Key)
      → status_of (admit R s e stock_keys now rate max_active ttl).1 e ≡ status_of s e
  unfolding admit
  status_of-admit s e now rate max_active ttl stock_keys =
      let s1 = zremrangebyscore s (Keys.active e) now in
      status_of-admit_in s1 e now rate max_active ttl (length (slot s1 (Keys.active e)).zset)
        (stock_total R s1 stock_keys) (status_of s1 e)
      ∙ grind (arith, slot-zremrangebyscore)

  -- Nor does joining.
  pub status_of-join :
      (s : Store) (e user now random : ℕ)
      → status_of (join R s e user now random).1 e ≡ status_of s e
  unfolding join enqueue
  status_of-join s e user now random =
      let code = join_phase (status_of s e) in
      elim (join_in_cases R s e user now random code) [
        | inl same ↦ ap (λ x. status_of x e) same
        | inr joined ↦
            ap (λ (r : JoinReply × Store). status_of r.1 e) joined
            ∙ grind (arith, slot-zadd_nx, slot-zadd)
      ]

  -- Whoever has a session is turned away while the queue is open, and nothing changes.
  pub join_turned_away :
      (s : Store) (e user now random : ℕ)
      → status_of s e ≡ some (queue_status QueueStatus.open_)
      → is_admitted R s e user ≡ true
      → (join R s e user now random).1 ≡ s
  unfolding join join_in
  join_turned_away s e user now random is_open inside = rw (join, is_open, inside) refl
