-- ===== src/Lua/Leader/Lock.antt =====
-- The leader lock has one owner at a time, and is free when the owner's time is over.
use antretix.Common.{
  ℕ, ◌+◌, ◌-◌, ◌<◌, ◌≡◌, sym, ◌∙◌, ap, none, inl, inr, true, false, some, List, [], ◌∷◌, arith,
  ◌==◌, ==_iff, Option-cases, leb, All, Bool-cases,
}
use antretix.Shared.Keys.{Key, key_eq, key_eq_self}
use antretix.Redis.{Redis, word, queue_status}
use antretix.Lua.Leader.{LockStep, leader, leaders}

-- The time that passes.
abbrev pub duration : List LockStep → ℕ
duration [] = 0
duration (LockStep.wait d ∷ steps) = d + duration steps
duration (LockStep.call_by who ∷ steps) = duration steps

module _ (R : Redis) where
  open R use {
    Store, slot, set_text_px, pexpire, elapse, slot-set_text_px, slot-pexpire, slot-elapse,
  }

  -- The lock is held by `me` for more than `d` milliseconds.
  abbrev Holds : Store → Key → ℕ → ℕ → Type 0
  Holds s k me d =
      ((slot s k).text ≡ some (word me)) × ((t : ℕ) × ((slot s k).ttl ≡ some t) × (d < t))

  elapse-Holds :
      (s : Store) (k : Key) (me d r : ℕ) → Holds s k me (d + r) → Holds (elapse s d) k me r
  elapse-Holds s k me d r (owned, (t, left, long)) =
      (grind (arith, slot-elapse), (t - d, grind (arith, slot-elapse), omega (arith, long)))

  leader-Holds :
      (s : Store) (k : Key) (me who ttl d : ℕ)
      → d < ttl
      → (who == me) ≡ true
      → Holds s k me d
      → ((leader R s k who ttl).0 ≡ true) × Holds (leader R s k who ttl).1 k me d
  unfolding leader
  leader-Holds s k me who ttl d h same (owned, (t, left, long)) = (
    grind arith,
    (grind (arith, slot-pexpire, key_eq_self), (ttl, grind (arith, slot-pexpire, key_eq_self), h)),
  )

  leader_refused :
      (s : Store) (k : Key) (me who ttl d : ℕ)
      → (who == me) ≡ false
      → Holds s k me d
      → leader R s k who ttl ≡ (false, s)
  unfolding leader
  leader_refused s k me who ttl d other (owned, (t, left, long)) = grind arith

  -- What a call that is answered with 1 leaves at the lock.
  leader_owns :
      (s : Store) (k : Key) (me ttl : ℕ)
      → (leader R s k me ttl).0 ≡ true
      → let lock = slot (leader R s k me ttl).1 k in
        (lock.text ≡ some (word me)) × (lock.ttl ≡ some ttl)
  unfolding leader
  leader_owns s k me ttl won = elim (Option-cases (slot s k).text) [
    | inl free ↦
        (grind (arith, slot-set_text_px, key_eq_self), grind (arith, slot-set_text_px, key_eq_self))
    | inr (queue_status q, other) ↦ ground arith
    | inr (word owner, taken) ↦ elim (Bool-cases (owner == me)) [
      | inl mine ↦
          (grind (arith, slot-pexpire, key_eq_self), grind (arith, slot-pexpire, key_eq_self))
      | inr theirs ↦ ground arith
    ]
  ]

  leader_free :
      (s : Store) (k : Key) (who ttl : ℕ) → (slot s k).text ≡ none → (leader R s k who ttl).0 ≡ true
  unfolding leader
  leader_free s k who ttl free = grind arith

  leaders-Holds :
      (s : Store) (k : Key) (me ttl : ℕ) (steps : List LockStep)
      → duration steps < ttl
      → Holds s k me (duration steps)
      → All (λ who. who ≡ me) (leaders R s k ttl steps)
  unfolding leaders
  leaders-Holds s k me ttl [] h held = tt
  leaders-Holds s k me ttl (LockStep.wait d ∷ steps) h held =
      leaders-Holds (elapse s d) k me ttl steps (omega (arith, h))
        (elapse-Holds s k me d (duration steps) held)
  leaders-Holds s k me ttl (LockStep.call_by who ∷ steps) h held = elim (Bool-cases (who == me)) [
    | inl mine ↦
        let (won, kept) = leader-Holds s k me who ttl (duration steps) h mine held in
        rw won
          ((==_iff who me).0 mine, leaders-Holds (leader R s k who ttl).1 k me ttl steps h kept)
    | inr other ↦
        rw (leader_refused s k me who ttl (duration steps) other held)
          (leaders-Holds s k me ttl steps h held)
  ]

  -- After a call that made `me` the leader for `ttl` milliseconds, nobody else becomes leader in any
  -- sequence of calls, each for that long, that takes less than `ttl` milliseconds.
  pub leader_exclusive :
      (s : Store) (k : Key) (me ttl : ℕ) (steps : List LockStep)
      → (leader R s k me ttl).0 ≡ true
      → duration steps < ttl
      → All (λ who. who ≡ me) (leaders R (leader R s k me ttl).1 k ttl steps)
  leader_exclusive s k me ttl steps won h =
      let (owned, left) = leader_owns s k me ttl won in
      leaders-Holds (leader R s k me ttl).1 k me ttl steps h (owned, (ttl, left, h))

  -- If the leader does not call again, another instance's call after `d` milliseconds makes that
  -- instance the leader exactly when the leader's `ttl` milliseconds are over.
  pub leader_handover :
      (s : Store) (k : Key) (me who ttl d : ℕ)
      → (leader R s k me ttl).0 ≡ true
      → (who == me) ≡ false
      → (leader R (elapse (leader R s k me ttl).1 d) k who ttl).0 ≡ leb ttl d
  leader_handover s k me who ttl d won other =
      let s1 = (leader R s k me ttl).1 in
      let (owned, left) = leader_owns s k me ttl won in
      elim (Bool-cases (leb ttl d)) [
        | inl over ↦ leader_free (elapse s1 d) k who ttl (grind (arith, slot-elapse)) ∙ sym over
        | inr early ↦
            let held = elapse-Holds s1 k me d 0 (owned, (ttl, left, ground arith)) in
            ap (λ r. r.0) (leader_refused (elapse s1 d) k me who ttl 0 other held) ∙ sym early
      ]

  -- The script touches no key but the lock.
  pub slot-leader :
      (s : Store) (lock : Key) (me ttl : ℕ) (j : Key)
      → key_eq lock j ≡ false
      → slot (leader R s lock me ttl).1 j ≡ slot s j
  unfolding leader
  slot-leader s lock me ttl j apart =
      ground (arith, slot-set_text_px s lock (word me) ttl j, slot-pexpire s lock ttl j)
