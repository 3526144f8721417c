-- ===== src/Lua/Queue/Entering.antt =====
-- admit.lua: what becomes of one user in the queue.
use antretix.Common.{
  ℕ, zero, suc, ◌+◌, ◌-◌, ◌≤◌, ◌<◌, ◌≡◌, refl, ◌∙◌, ap, true, false, ◌||◌, some, List, [], ◌∷◌,
  arith, All, take, drop, length, Bool-cases, Option-cases, inl, inr, Bool,
}
use antretix.Common.Int.{ℤ, pos, pos_part, leb_ℤ}
use antretix.Shared.Constants.{QueueStatus}
use antretix.Shared.Keys
use antretix.Shared.Keys.{Key, key_eq}
use antretix.Redis.{
  Redis, Entry, Member, queue_status, above, has, rank_of, member_eq, without, zadd_entries,
}
use antretix.Redis.Order.{has-insert, has-without_other}
use antretix.Lua.Queue.{
  admit, admit_open, admit_front, admit_users, admit_user, free_slots, stock_total,
}
use antretix.Lua.Queue.Joining.{queue_of}
use antretix.Lua.Queue.Admission.{
  places, active_of, purged, slot-purged, stock_total-purged, admit-admit_open, slot-record_admits,
  active_of-admit_user, free_slots-places, pos_part_nonpos, admit_result,
}

-- The rank behind the first entry, when the member is not that one.
rank_of_behind :
    (m : Member) (e : Entry) (es : List Entry) (r : ℕ)
    → member_eq m e.member ≡ false
    → rank_of m (e ∷ es) ≡ some r
    → (n : ℕ) × (rank_of m es ≡ some n) × (r ≡ suc n)
rank_of_behind m e es r miss f = elim (Option-cases (rank_of m es)) [
  | inl absent ↦ ground arith
  | inr (n, there) ↦ (n, there, ground arith)
]

rank_of-drop :
    (m : Member) (k r : ℕ) (es : List Entry)
    → rank_of m es ≡ some r
    → k ≤ r
    → rank_of m (drop k es) ≡ some (r - k)
rank_of-drop m zero r es f h = f ∙ ap some (omega arith)
rank_of-drop m (suc k) r [] f h = ground arith
rank_of-drop m (suc k) r (e ∷ es) f h = elim (Bool-cases (member_eq m e.member)) [
  | inl hit ↦ ground arith
  | inr miss ↦
      let (n, there, step) = rank_of_behind m e es r miss f in
      rank_of-drop m k n es there (omega (arith, step, h)) ∙ ap some (omega (arith, step))
]

has-take_front :
    (m : Member) (k r : ℕ) (es : List Entry)
    → rank_of m es ≡ some r
    → r < k
    → has m (take k es) ≡ true
has-take_front m zero r es f h = ground arith
has-take_front m (suc k) r [] f h = ground arith
has-take_front m (suc k) r (e ∷ es) f h = elim (Bool-cases (member_eq m e.member)) [
  | inl hit ↦ ground arith
  | inr miss ↦
      let (n, there, step) = rank_of_behind m e es r miss f in
      ground (arith, has-take_front m k n es there (omega (arith, step, h)))
]

has-zadd_entries :
    (tie : Member → Member → Bool) (score : ℕ) (m n : Member) (es : List Entry)
    → has m (zadd_entries tie score n es) ≡ (member_eq m n || has m es)
has-zadd_entries tie score m n es = elim (Bool-cases (member_eq m n)) [
  | inl same ↦
      ground (arith, has-insert tie m (record { member = n; score = score }) (without n es))
  | inr other ↦ ground (
    arith,
    has-insert tie m (record { member = n; score = score }) (without n es),
    has-without_other m n es,
  )
]

module _ (R : Redis) where
  open R use {Store, slot, tie, zpopmin, slot-zpopmin}

  has_session-admit_users :
      (m : Member) (es : List Entry) (s : Store) (e expires_at ttl : ℕ)
      → (has m es || has m (active_of R s e)) ≡ true
      → has m (active_of R (admit_users R s e expires_at ttl es) e) ≡ true
  unfolding admit_users
  has_session-admit_users m [] s e expires_at ttl h = h
  has_session-admit_users m (x ∷ es) s e expires_at ttl h =
      has_session-admit_users m es (admit_user R s e expires_at ttl x.member) e expires_at ttl (
        rw
          (
            active_of-admit_user R s e expires_at ttl x.member,
            has-zadd_entries tie expires_at m x.member (active_of R s e),
          )
          (ground arith))

  admit_front_enters :
      (m : Member) (s : Store) (e now ttl active slots r : ℕ) (stock : ℤ)
      → rank_of m (queue_of R s e) ≡ some r
      → r < slots
      → has m (active_of R (admit_front R s e now ttl active slots stock).1 e) ≡ true
  unfolding admit_front
  admit_front_enters m s e now ttl active slots r stock place first =
      let popped = take slots (queue_of R s e) in
      let s1 = zpopmin s (Keys.queue e) slots in
      let s2 = admit_users R s1 e (now + ttl) ttl popped in
      ap (λ h. has m h.zset) (slot-record_admits R s2 e now _ (Keys.active e) refl)
      ∙ has_session-admit_users m popped s1 e (now + ttl) ttl
          (rw (has-take_front m slots r (queue_of R s e) place first) refl)

  admit_open_enters :
      (m : Member) (s : Store) (e now rate max_active ttl r : ℕ) (stock : ℤ)
      → let live = length (active_of R s e) in
        rank_of m (queue_of R s e) ≡ some r
        → r < places rate max_active live stock
        → has m (active_of R (admit_open R s e now rate max_active ttl live stock).1 e) ≡ true
  unfolding admit_open
  admit_open_enters m s e now rate max_active ttl r stock place first =
      let live = length (active_of R s e) in
      let slots = free_slots rate max_active live stock in
      let exact = free_slots-places rate max_active live stock in
      elim (Bool-cases (leb_ℤ stock (pos 0))) [
        | inl no_stock ↦ absurd (omega (arith, pos_part_nonpos stock no_stock, first))
        | inr stocked ↦ elim (Bool-cases (leb_ℤ slots (pos 0))) [
          | inl full ↦ absurd (omega (arith, exact, pos_part_nonpos slots full, first))
          | inr free ↦
              rw (stocked, free)
                (admit_front_enters m s e now ttl live (pos_part slots) r stock place
                  (omega (arith, exact, first)))
        ]
      ]

  -- A tick while the queue is open, when no key of the stock is the key of the active set, and a
  -- member of the queue with `r` others in front: when fewer than the places that the tick fills
  -- are in front, the member has a session afterwards; otherwise the member is still in the queue,
  -- and just as many fewer are in front.
  pub admit_moves_up :
      (m : Member) (s : Store) (e now rate max_active ttl r : ℕ) (stock_keys : List Key)
      → All (λ k. key_eq (Keys.active e) k ≡ false) stock_keys
      → (slot s (Keys.status e)).text ≡ some (queue_status QueueStatus.open_)
      → rank_of m (queue_of R s e) ≡ some r
      → let k =
          places rate max_active
            (length (above now (active_of R s e)))
            (stock_total R s stock_keys) in
        let s' = (admit R s e stock_keys now rate max_active ttl).1 in
        (r < k → has m (active_of R s' e) ≡ true)
        × (k ≤ r → rank_of m (queue_of R s' e) ≡ some (r - k))
  admit_moves_up m s e now rate max_active ttl r stock_keys apart is_open place =
      let (queue, active, status) = slot-purged R s e now in
      let (count, left, bound) =
        admit_result R s e now rate max_active ttl stock_keys apart is_open in
      (
        λ first. rw (admit-admit_open R s e now rate max_active ttl stock_keys is_open) (
            admit_open_enters m (purged R s e now) e now rate max_active ttl r
              (stock_total R (purged R s e now) stock_keys) (ap (rank_of m) queue ∙ place)
              (rw (active, stock_total-purged R stock_keys s e now apart) first)),
        λ behind. ap (rank_of m) left ∙ rank_of-drop m _ r (queue_of R s e) place behind,
      )
