-- ===== src/Lua/Queue/Joining.antt =====
-- join.lua: one place for each account, which a second call keeps, and the order of the places.
use antretix.Common.{
  ℕ, ◌*◌, ◌≤◌, ◌<◌, ◌≡◌, refl, ◌∙◌, ap, ◌⊎◌, true, false, not, some, List, [], ◌∷◌, ◌++◌, arith,
  All, length, Bool-cases, inl, inr, if◌then◌else◌,
}
use antretix.Common.Int.{pos}
use antretix.Shared.Keys
use antretix.Shared.Keys.{Key, key_eq}
use antretix.Redis.{Redis, Entry, id, has, rank_of, without, zadd_entries}
use antretix.Redis.Order.{
  IsOrdered, insert-IsOrdered, without-IsOrdered, has-without_self, without_absent, insert_last,
  rank_of_last, rank_of-has,
}
use antretix.Lua.Queue.{
  JoinCode, join, join_in, enqueue, is_admitted, join_phase, join_score, rank_reply, ms_score,
}

module _ (R : Redis) where
  open R use {Store, slot, tie, slot-zadd, slot-zadd_nx}

  abbrev pub queue_of : Store → ℕ → List Entry
  queue_of s e = (slot s (Keys.queue e)).zset

  -- What the queue holds after a user is put into it.
  abbrev pub enqueued : Store → ℕ → ℕ → ℕ → List Entry
  enqueued s e score user =
      if has (id user) (queue_of s e)
      then queue_of s e
      else zadd_entries tie score (id user) (queue_of s e)

  queue_of-enqueue :
      (s : Store) (e user now random : ℕ) (code : JoinCode)
      → queue_of (enqueue R s e user now random code).1 e
        ≡ enqueued s e (join_score code now random) user
  unfolding enqueue
  queue_of-enqueue s e user now random code = grind (arith, slot-zadd, slot-zadd_nx)

  enqueue-reply :
      (s : Store) (e user now random : ℕ) (code : JoinCode)
      → let (reply, s') = enqueue R s e user now random code in
        (reply.code ≡ code)
        × (reply.rank ≡ rank_reply (rank_of (id user) (queue_of s' e)))
        × (reply.added ≡ not (has (id user) (queue_of s e)))
  unfolding enqueue
  enqueue-reply s e user now random code = (refl, refl, refl)

  -- The phases in which join.lua takes the user in.
  abbrev pub IsJoinable : JoinCode → Type 0
  IsJoinable code = (code ≡ JoinCode.prequeue) ⊎ (code ≡ JoinCode.queued)

  join_in_joins :
      (s : Store) (e user now random : ℕ) (code : JoinCode)
      → IsJoinable code
      → is_admitted R s e user ≡ false
      → join_in R s e user now random code ≡ enqueue R s e user now random code
  unfolding join_in
  join_in_joins s e user now random JoinCode.prequeue p a = rw a
  join_in_joins s e user now random JoinCode.queued p a = rw a
  join_in_joins s e user now random code p a = ground arith

  pub join_in_cases :
      (s : Store) (e user now random : ℕ) (code : JoinCode)
      → ((join_in R s e user now random code).1 ≡ s)
        ⊎ (join_in R s e user now random code ≡ enqueue R s e user now random code)
  unfolding join_in
  join_in_cases s e user now random JoinCode.prequeue = elim (Bool-cases (is_admitted R s e user)) [
    | inl a ↦ inl (rw a)
    | inr n ↦ inr (rw n)
  ]
  join_in_cases s e user now random JoinCode.queued = elim (Bool-cases (is_admitted R s e user)) [
    | inl a ↦ inl (rw a)
    | inr n ↦ inr (rw n)
  ]
  join_in_cases s e user now random code = inl refl

  join_in-added :
      (s : Store) (e user now random : ℕ) (code : JoinCode)
      → has (id user) (queue_of s e) ≡ true
      → (join_in R s e user now random code).0.added ≡ false
  unfolding join_in
  join_in-added s e user now random JoinCode.prequeue h = ground arith
  join_in-added s e user now random JoinCode.queued h = ground arith
  join_in-added s e user now random code h = refl

  -- The phase that the queue of an event is in.
  abbrev pub phase_of : Store → ℕ → JoinCode
  phase_of s e = join_phase (slot s (Keys.status e)).text

  enqueued-IsOrdered :
      (s : Store) (e score user : ℕ)
      → IsOrdered (queue_of s e)
      → IsOrdered (enqueued s e score user)
  enqueued-IsOrdered s e score user o = elim (Bool-cases (has (id user) (queue_of s e))) [
    | inl there ↦ rw there o
    | inr absent ↦ rw absent (
        insert-IsOrdered tie (record { member = id user; score = score })
          (without (id user) (queue_of s e)) (has-without_self (id user) (queue_of s e))
          (without-IsOrdered (id user) (queue_of s e) o))
  ]

  -- Whatever it answers, a call leaves a queue ordered by score with one place for each account, if
  -- it was.
  pub join-IsOrdered :
      (s : Store) (e user now random : ℕ)
      → IsOrdered (queue_of s e)
      → IsOrdered (queue_of (join R s e user now random).1 e)
  unfolding join
  join-IsOrdered s e user now random o = elim (join_in_cases s e user now random (phase_of s e)) [
    | inl same ↦ rw same o
    | inr joined ↦
        rw (joined, queue_of-enqueue s e user now random (phase_of s e))
          (enqueued-IsOrdered s e _ user o)
  ]

  -- A user who is in the queue keeps the place: a second call, at any time and with any lot, changes
  -- nothing in the queue, and if it takes the user in, it answers the old rank and adds nobody.
  pub join_again :
      (s : Store) (e user now random : ℕ)
      → has (id user) (queue_of s e) ≡ true
      → let (reply, s') = join R s e user now random in
        (queue_of s' e ≡ queue_of s e)
        × (reply.added ≡ false)
        × (IsJoinable (phase_of s e)
            → is_admitted R s e user ≡ false
            → (r : ℕ) × (rank_of (id user) (queue_of s e) ≡ some r) × (reply.rank ≡ pos r))
  unfolding join
  join_again s e user now random h =
      let code = phase_of s e in
      let same : enqueued s e (join_score code now random) user ≡ queue_of s e = rw h in
      let kept = queue_of-enqueue s e user now random code ∙ same in
      (
        elim (join_in_cases s e user now random code) [
          | inl refused ↦ rw refused
          | inr joined ↦ rw joined kept
        ],
        join_in-added s e user now random code h,
        λ p a.
            let (r, f) = rank_of-has (id user) (queue_of s e) h in
            (
              r,
              f,
              rw (join_in_joins s e user now random code p a) (
                  (enqueue-reply s e user now random code).1
                  ∙ ap (λ es. rank_reply (rank_of (id user) es)) kept
                  ∙ ap rank_reply f),
            ),
      )

  latecomer_rank :
      (s : Store) (e user now random : ℕ)
      → has (id user) (queue_of s e) ≡ false
      → All (λ f. f.score < now * ms_score) (queue_of s e)
      → enqueued s e (now * ms_score) user
        ≡ queue_of s e ++ record { member = id user; score = now * ms_score } ∷ []
  latecomer_rank s e user now random n late =
      rw (n, without_absent (id user) (queue_of s e) n) (insert_last tie _ (queue_of s e) late)

  -- While the queue is open or paused it is first come, first served: whoever comes at a time after
  -- every score in the queue, has no place in it and holds no session, is put behind all others,
  -- who keep their places, and is told how many they are.
  pub join_latecomer :
      (s : Store) (e user now random : ℕ)
      → phase_of s e ≡ JoinCode.queued
      → is_admitted R s e user ≡ false
      → has (id user) (queue_of s e) ≡ false
      → All (λ f. f.score < now * ms_score) (queue_of s e)
      → let (reply, s') = join R s e user now random in
        (reply.code ≡ JoinCode.queued)
        × (reply.added ≡ true)
        × (reply.rank ≡ pos (length (queue_of s e)))
        × (queue_of s' e ≡ queue_of s e ++ record { member = id user; score = now * ms_score } ∷ [])
  unfolding join
  join_latecomer s e user now random p a n late =
      let entry : Entry = record { member = id user; score = now * ms_score } in
      let back =
        queue_of-enqueue s e user now random JoinCode.queued
        ∙ latecomer_rank s e user now random n late in
      let (_, rank, added) = enqueue-reply s e user now random JoinCode.queued in
      rw (p, join_in_joins s e user now random JoinCode.queued (inr refl) a)
        (
          refl,
          added ∙ rw n,
          rank
              ∙ ap (λ es. rank_reply (rank_of (id user) es)) back
              ∙ ap rank_reply (rank_of_last entry (queue_of s e) n),
          back,
        )

  -- Whoever joins before the sale opens gets a score below that of anybody who joins at any later
  -- millisecond: the lot decides among the early, and never against the clock.
  pub lot_before_clock :
      (random now now' : ℕ)
      → random < ms_score
      → 1 ≤ now'
      → join_score JoinCode.prequeue now random < join_score JoinCode.queued now' random
  lot_before_clock random now now' r h = omega arith
