-- ===== src/Lua/Queue/Admission.antt =====
-- admit.lua: who is let in, and how many.
use antretix.Common.{
  ℕ, ◌+◌, ◌-◌, ◌≤◌, ◌≡◌, refl, ◌∙◌, ap, true, false, some, List, [], ◌∷◌, arith, All, length, take,
  drop, min, max, Bool-cases, inl, inr, ◌≢◌, length-take,
}
use antretix.Common.Int.{ℤ, pos, pos_part, -ℤ_parts, leb_ℤ}
use antretix.Shared.Constants.{QueueStatus}
use antretix.Shared.Keys
use antretix.Shared.Keys.{Key, key_eq}
use antretix.Redis.{Redis, Entry, Member, queue_status, without, above, zadd_entries}
use antretix.Redis.Order.{length-insert, length-without-le}
use antretix.Lua.Queue.{
  AdmitReply, admit, admit_in, admit_open, admit_front, admit_users, admit_user, record_admits,
  free_slots, stock_total,
}
use antretix.Lua.Queue.Joining.{queue_of}

-- The places that a tick may fill: no more than the rate, the sessions that are left below the
-- maximum, and the tickets.
abbrev pub places : ℕ → ℕ → ℕ → ℤ → ℕ
places rate max_active live stock = min (min rate (max_active - live)) (pos_part stock)

pub free_slots-places :
    (rate max_active live : ℕ) (stock : ℤ)
    → pos_part (free_slots rate max_active live stock) ≡ places rate max_active live stock
free_slots-places rate max_active live stock = ground (arith, -ℤ_parts (pos max_active) (pos live))

pub pos_part_nonpos : (a : ℤ) → leb_ℤ a (pos 0) ≡ true → pos_part a ≡ 0
pos_part_nonpos a h = ground arith

module _ (R : Redis) where
  open R use {
    Store, slot, tie, zpopmin, zremrangebyscore, slot-zadd, slot-set_text_px, slot-zrem,
    slot-zpopmin, slot-zremrangebyscore,
  }

  abbrev pub active_of : Store → ℕ → List Entry
  active_of s e = (slot s (Keys.active e)).zset

  queue_of-admit_users :
      (es : List Entry) (s : Store) (e expires_at ttl : ℕ)
      → queue_of R (admit_users R s e expires_at ttl es) e ≡ queue_of R s e
  unfolding admit_users
  queue_of-admit_users [] s e expires_at ttl = refl
  queue_of-admit_users (x ∷ es) s e expires_at ttl =
      queue_of-admit_users es _ e expires_at ttl
      ∙ grind (arith, slot-zadd, slot-set_text_px, slot-zrem)

  length-zadd_entries :
      (score : ℕ) (m : Member) (es : List Entry)
      → length (zadd_entries tie score m es) ≤ length es + 1
  length-zadd_entries score m es = omega (
    arith,
    length-insert tie (record { member = m; score = score }) (without m es),
    length-without-le m es,
  )

  pub active_of-admit_user :
      (s : Store) (e expires_at ttl : ℕ) (m : Member)
      → active_of (admit_user R s e expires_at ttl m) e
        ≡ zadd_entries tie expires_at m (active_of s e)
  unfolding admit_user
  active_of-admit_user s e expires_at ttl m = grind (arith, slot-zadd, slot-set_text_px, slot-zrem)

  length-active_of-admit_users :
      (es : List Entry) (s : Store) (e expires_at ttl : ℕ)
      → length (active_of (admit_users R s e expires_at ttl es) e)
        ≤ length (active_of s e) + length es
  unfolding admit_users
  length-active_of-admit_users [] s e expires_at ttl = omega arith
  length-active_of-admit_users (x ∷ es) s e expires_at ttl =
      let step = active_of-admit_user s e expires_at ttl x.member in
      omega (
        arith,
        length-active_of-admit_users es (admit_user R s e expires_at ttl x.member) e expires_at ttl,
        ap length step,
        length-zadd_entries expires_at x.member (active_of s e),
      )

  pub slot-record_admits :
      (s : Store) (e now count : ℕ) (j : Key)
      → key_eq (Keys.admit_stats e) j ≡ false
      → slot (record_admits R s e now count) j ≡ slot s j
  unfolding record_admits
  slot-record_admits s e now count j h = grind (arith, slot-zadd, slot-zremrangebyscore)

  admit_front_result :
      (s : Store) (e now ttl active slots : ℕ) (stock : ℤ)
      → let (reply, s') = admit_front R s e now ttl active slots stock in
        (queue_of R s' e ≡ drop slots (queue_of R s e))
        × (reply.admitted ≡ min slots (length (queue_of R s e)))
        × (length (active_of s' e) ≤ length (active_of s e) + reply.admitted)
  unfolding admit_front
  admit_front_result s e now ttl active slots stock =
      let popped = take slots (queue_of R s e) in
      let s1 = zpopmin s (Keys.queue e) slots in
      let s2 = admit_users R s1 e (now + ttl) ttl popped in
      let front : queue_of R s1 e ≡ drop slots (queue_of R s e) = grind (arith, slot-zpopmin) in
      let others : active_of s1 e ≡ active_of s e = grind (arith, slot-zpopmin) in
      (
        ap (λ h. h.zset) (slot-record_admits s2 e now (length popped) (Keys.queue e) refl)
            ∙ queue_of-admit_users popped s1 e (now + ttl) ttl
            ∙ front,
        length-take slots (queue_of R s e),
        omega (
          arith,
          ap {B = ℕ} (λ h. length h.zset)
              (slot-record_admits s2 e now (length popped) (Keys.active e) refl),
          length-active_of-admit_users popped s1 e (now + ttl) ttl,
          ap length others,
        ),
      )

  abbrev pub Admits : Store → ℕ → ℕ → ℕ → ℕ → AdmitReply × Store → Type 0
  Admits s e max_active live k (reply, s') =
      (reply.admitted ≡ min k (length (queue_of R s e)))
      × (queue_of R s' e ≡ drop k (queue_of R s e))
      × (length (active_of s' e) ≤ max live max_active)

  admit_open-Admits :
      (s : Store) (e now rate max_active ttl : ℕ) (stock : ℤ)
      → let live = length (active_of s e) in
        Admits s e max_active live
          (places rate max_active live stock)
          (admit_open R s e now rate max_active ttl live stock)
  unfolding admit_open
  admit_open-Admits s e now rate max_active ttl stock =
      let live = length (active_of s e) in
      let k = places rate max_active live stock in
      let slots = free_slots rate max_active live stock in
      let exact = free_slots-places rate max_active live stock in
      elim (Bool-cases (leb_ℤ stock (pos 0))) [
        | inl no_stock ↦
            let none_left : k ≡ 0 = omega (arith, pos_part_nonpos stock no_stock) in
            rw (no_stock, none_left) (omega arith, refl, omega arith)
        | inr stocked ↦ elim (Bool-cases (leb_ℤ slots (pos 0))) [
          | inl full ↦
              let none_left : k ≡ 0 = omega (arith, exact, pos_part_nonpos slots full) in
              rw (stocked, full, none_left) (omega arith, refl, omega arith)
          | inr free ↦
              let (front, count, bound) =
                admit_front_result s e now ttl live (pos_part slots) stock in
              rw (stocked, free)
                (
                  count ∙ ap (λ n. min n (length (queue_of R s e))) exact,
                  front ∙ ap (λ n. drop n (queue_of R s e)) exact,
                  omega (arith, bound, count, exact),
                )
        ]
      ]

  -- The store once the sessions that have run out are dropped.
  unfoldable pub purged : Store → ℕ → ℕ → Store
  purged s e now = zremrangebyscore s (Keys.active e) now

  pub slot-purged :
      (s : Store) (e now : ℕ)
      → (queue_of R (purged s e now) e ≡ queue_of R s e)
        × (active_of (purged s e now) e ≡ above now (active_of s e))
        × ((slot (purged s e now) (Keys.status e)).text ≡ (slot s (Keys.status e)).text)
  unfolding purged
  slot-purged s e now = (
    grind (arith, slot-zremrangebyscore),
    grind (arith, slot-zremrangebyscore),
    grind (arith, slot-zremrangebyscore),
  )

  pub stock_total-purged :
      (ks : List Key) (s : Store) (e now : ℕ)
      → All (λ k. key_eq (Keys.active e) k ≡ false) ks
      → stock_total R (purged s e now) ks ≡ stock_total R s ks
  unfolding stock_total purged
  stock_total-purged [] s e now h = refl
  stock_total-purged (k ∷ ks) s e now h =
      rw (slot-zremrangebyscore, h.0, stock_total-purged ks s e now h.1)

  pub admit-admit_open :
      (s : Store) (e now rate max_active ttl : ℕ) (stock_keys : List Key)
      → (slot s (Keys.status e)).text ≡ some (queue_status QueueStatus.open_)
      → let s1 = purged s e now in
        admit R s e stock_keys now rate max_active ttl
        ≡ admit_open R s1 e now rate max_active ttl
            (length (active_of s1 e))
            (stock_total R s1 stock_keys)
  unfolding admit purged admit_in
  admit-admit_open s e now rate max_active ttl stock_keys is_open =
      rw ((slot-purged s e now).2 ∙ is_open, admit, admit_in)

  -- A tick while the queue is open, when no key of the stock is the key of the active set: it lets
  -- in the users at the front, exactly as many as the rate, the sessions that are free, the tickets
  -- in stock and the queue allow, and takes them off the queue; sessions that have run out are not
  -- counted, and afterwards there are no more sessions than the live ones before or the maximum,
  -- whichever is more.
  pub admit_result :
      (s : Store) (e now rate max_active ttl : ℕ) (stock_keys : List Key)
      → All (λ k. key_eq (Keys.active e) k ≡ false) stock_keys
      → (slot s (Keys.status e)).text ≡ some (queue_status QueueStatus.open_)
      → let live = length (above now (active_of s e)) in
        Admits s e max_active live
          (places rate max_active live (stock_total R s stock_keys))
          (admit R s e stock_keys now rate max_active ttl)
  admit_result s e now rate max_active ttl stock_keys apart is_open =
      let s1 = purged s e now in
      let (queue, active, status) = slot-purged s e now in
      rw
        (
          admit-admit_open s e now rate max_active ttl stock_keys is_open,
          ← queue,
          ← active,
          ← stock_total-purged stock_keys s e now apart,
        )
        (admit_open-Admits s1 e now rate max_active ttl (stock_total R s1 stock_keys))

  -- A tick in any other status lets nobody in, leaves the queue as it was, and leaves of the
  -- sessions those that have not run out.
  pub admit_not_open :
      (s : Store) (e now rate max_active ttl : ℕ) (stock_keys : List Key)
      → (slot s (Keys.status e)).text ≢ some (queue_status QueueStatus.open_)
      → let (reply, s') = admit R s e stock_keys now rate max_active ttl in
        (reply.admitted ≡ 0)
        × (queue_of R s' e ≡ queue_of R s e)
        × (active_of s' e ≡ above now (active_of s e))
  unfolding admit purged admit_in
  admit_not_open s e now rate max_active ttl stock_keys shut =
      let (queue, active, status) = slot-purged s e now in ground (arith, queue, active, status)
