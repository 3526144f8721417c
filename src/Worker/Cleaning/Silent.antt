-- ===== src/Worker/Cleaning/Silent.antt =====
-- The cleanup of one event ends, and drops just those who have been silent.
use antretix.Common.{
  subst, ℕ, zero, suc, ◌+◌, ◌≤◌, ◌<◌, ◌≡◌, refl, sym, ◌∙◌, ap, not, ◌&&◌, ◌||◌, some, List, [], ◌∷◌,
  arith, take, drop, length, min, leb, ◌==◌, Bool-cases, inl, inr, All, length-take, take_shorter,
  take_whole, length-drop, length-keep-le,
}
use antretix.Shared.Keys
use antretix.Redis.{Redis, Entry, Member, has, member_eq, without, at_most, above}
use antretix.Redis.Order.{
  IsOrdered, member_eq_self, member_eq-eq, without_absent, has-without_other, has-without_self,
  drop-IsOrdered,
}
use antretix.Lua.Queue.{cleanup, drop_stale}
use antretix.Lua.Queue.Joining.{queue_of}
use antretix.Lua.Status.Alive.{heartbeats_of}
use antretix.Worker.{cleanup_batch}
use antretix.Worker.Cleaning.{cleanup_rounds, cleanup_event}

beyond_cutoff :
    (cutoff b : ℕ) (es : List Entry)
    → cutoff < b
    → All (λ f. b ≤ f.score) es
    → (at_most cutoff es ≡ []) × (above cutoff es ≡ es)
beyond_cutoff cutoff b [] h a = (refl, refl)
beyond_cutoff cutoff b (e ∷ es) h a =
    let (l, u) = beyond_cutoff cutoff b es h a.1 in (ground arith, ground arith)

-- Of an ordered set, the first few of those up to a score are the first few of all.
take-at_most :
    (cutoff n : ℕ) (es : List Entry)
    → IsOrdered es
    → let stale = take n (at_most cutoff es) in stale ≡ take (length stale) es
take-at_most cutoff zero es o = refl
take-at_most cutoff (suc n) [] o = refl
take-at_most cutoff (suc n) (e ∷ es) o = elim (Bool-cases (leb e.score cutoff)) [
  | inl old ↦ rw old (ap (λ t. e ∷ t) (take-at_most cutoff n es o.2))
  | inr new ↦ rw (new, (beyond_cutoff cutoff e.score es (ground arith) o.0).0) refl
]

-- What is left of those up to a score when some of them, the first ones, are gone.
at_most-drop :
    (cutoff n : ℕ) (es : List Entry)
    → IsOrdered es
    → n ≤ length (at_most cutoff es)
    → (at_most cutoff (drop n es) ≡ drop n (at_most cutoff es))
      × (above cutoff (drop n es) ≡ above cutoff es)
at_most-drop cutoff zero es o h = (refl, refl)
at_most-drop cutoff (suc n) [] o h = (refl, refl)
at_most-drop cutoff (suc n) (e ∷ es) o h = elim (Bool-cases (leb e.score cutoff)) [
  | inl old ↦
      let fewer : n ≤ length (at_most cutoff es) = ground arith in
      let (l, u) = at_most-drop cutoff n es o.2 fewer in (rw old l, ground (arith, u))
  | inr new ↦
      let none_left = (beyond_cutoff cutoff e.score es (ground arith) o.0).0 in
      absurd (ground (arith, ap length none_left))
]

above_all : (cutoff : ℕ) (es : List Entry) → length (at_most cutoff es) ≡ 0 → above cutoff es ≡ es
above_all cutoff [] h = refl
above_all cutoff (e ∷ es) h = ground (arith, above_all cutoff es)

has_either :
    (m : Member) (n : ℕ) (es : List Entry) → has m es ≡ (has m (take n es) || has m (drop n es))
has_either m zero es = refl
has_either m (suc n) [] = refl
has_either m (suc n) (e ∷ es) = ground (arith, has_either m n es)

has-without :
    (m n : Member) (es : List Entry) → has m (without n es) ≡ (has m es && not (member_eq m n))
has-without m n es = elim (Bool-cases (member_eq m n)) [
  | inl same ↦
      let gone = has-without_self m es in rw (same, ← member_eq-eq m n same, gone) (ground arith)
  | inr other ↦ ground (arith, has-without_other m n es other)
]

module _ (R : Redis) where
  open R use {Store, slot, zrem, slot-zrem}

  -- One of the silent goes: out of the queue and of the heartbeats.
  drop_one :
      (s : Store) (e : ℕ) (m : Member)
      → let s1 = zrem (zrem s (Keys.queue e) m) (Keys.heartbeat e) m in
        (queue_of R s1 e ≡ without m (queue_of R s e))
        × (heartbeats_of R s1 e ≡ without m (heartbeats_of R s e))
  drop_one s e m = (grind (arith, slot-zrem), grind (arith, slot-zrem))

  queue_of-drop_stale :
      (m : Member) (stale : List Entry) (s : Store) (e : ℕ)
      → has m (queue_of R (drop_stale R s e stale) e)
        ≡ (has m (queue_of R s e) && not (has m stale))
  unfolding drop_stale
  queue_of-drop_stale m [] s e = ground arith
  queue_of-drop_stale m (x ∷ stale) s e =
      let s1 = zrem (zrem s (Keys.queue e) x.member) (Keys.heartbeat e) x.member in
      queue_of-drop_stale m stale s1 e
      ∙ rw ((drop_one s e x.member).0, has-without m x.member (queue_of R s e)) (ground arith)

  heartbeats_of-drop_stale :
      (n : ℕ) (es : List Entry) (s : Store) (e : ℕ)
      → heartbeats_of R s e ≡ es
      → IsOrdered es
      → heartbeats_of R (drop_stale R s e (take n es)) e ≡ drop n es
  unfolding drop_stale
  heartbeats_of-drop_stale zero es s e h o = h
  heartbeats_of-drop_stale (suc n) [] s e h o = h
  heartbeats_of-drop_stale (suc n) (x ∷ es) s e h o =
      heartbeats_of-drop_stale n es _ e
        ((drop_one s e x.member).1
          ∙ rw (h, member_eq_self x.member) (without_absent x.member es o.1))
        o.2

  -- What one call of cleanup.lua leaves.
  cleanup_round :
      (s : Store) (e cutoff batch : ℕ)
      → IsOrdered (heartbeats_of R s e)
      → let silent = at_most cutoff (heartbeats_of R s e) in
        let (n, s') = cleanup R s e cutoff batch in
        (n ≡ min batch (length silent))
        × (heartbeats_of R s' e ≡ drop n (heartbeats_of R s e))
        × ((m : Member)
            → has m (queue_of R s' e) ≡ (has m (queue_of R s e) && not (has m (take n silent))))
  unfolding cleanup
  cleanup_round s e cutoff batch o =
      let hb = heartbeats_of R s e in
      let stale = take batch (at_most cutoff hb) in
      let first = take-at_most cutoff batch hb o in
      (
        length-take batch (at_most cutoff hb),
        subst (λ t. heartbeats_of R (drop_stale R s e t) e ≡ drop (length stale) hb) (sym first)
            (heartbeats_of-drop_stale (length stale) hb s e refl o),
        λ m.
            queue_of-drop_stale m stale s e
            ∙ ap (λ t. has m (queue_of R s e) && not (has m t))
                (sym (take_shorter batch (at_most cutoff hb))),
      )

  -- All the silent, and nobody else, are out of the queue, and the others' heartbeats are left.
  abbrev pub Swept : Store → ℕ → ℕ → ℕ × Store → Type 0
  Swept s e cutoff (removed, s') =
      let silent = at_most cutoff (heartbeats_of R s e) in
      (removed ≡ length silent)
      × (heartbeats_of R s' e ≡ above cutoff (heartbeats_of R s e))
      × ((m : Member) → has m (queue_of R s' e) ≡ (has m (queue_of R s e) && not (has m silent)))

  cleanup_rounds-Swept :
      (rounds : ℕ) (s : Store) (e cutoff : ℕ)
      → IsOrdered (heartbeats_of R s e)
      → length (at_most cutoff (heartbeats_of R s e)) < rounds
      → (r : ℕ × Store) × (cleanup_rounds R rounds s e cutoff ≡ some r) × Swept s e cutoff r
  unfolding cleanup_rounds
  cleanup_rounds-Swept zero s e cutoff o few = absurd (omega (arith, few))
  cleanup_rounds-Swept (suc rounds) s e cutoff o few =
      let hb = heartbeats_of R s e in
      let silent = at_most cutoff hb in
      let (n, s1) = cleanup R s e cutoff cleanup_batch in
      let (count, left, place) = cleanup_round s e cutoff cleanup_batch o in
      let (still, live) = at_most-drop cutoff n hb o (omega (arith, count)) in
      let silent1 = ap (at_most cutoff) left ∙ still in
      let fewer = ap length silent1 ∙ length-drop n silent in
      elim (Bool-cases (n == cleanup_batch)) [
        | inl full ↦
            let (r, ends, (total, beats, out)) =
              cleanup_rounds-Swept rounds s1 e cutoff
                (subst IsOrdered (sym left) (drop-IsOrdered n hb o))
                (ground (arith, fewer, count)) in
            (
              (n + r.0, r.1),
              rw (full, ends) refl,
              (
                omega (arith, total, fewer, count),
                beats ∙ ap (above cutoff) left ∙ live,
                λ m. out m ∙ rw (place m, silent1, has_either m n silent) (ground arith),
              ),
            )
        | inr last ↦
            let all_of = take_whole n silent (ground (arith, count)) in
            (
              (n, s1),
              rw last refl,
              (
                ground (arith, count),
                left
                    ∙ sym (
                        above_all cutoff (drop n hb)
                          (ground (arith, ap length still, length-drop n silent, count)))
                    ∙ live,
                λ m. place m ∙ ap (λ t. has m (queue_of R s e) && not (has m t)) all_of,
              ),
            )
      ]

  -- On heartbeats that are ordered, with one for each member, the cleanup of an event ends within
  -- its bound on the rounds: it takes out of the queue exactly the members whose heartbeat is at
  -- the cutoff or before it, counts them, and leaves the other heartbeats as they were.
  pub cleanup_event_result :
      (s : Store) (e cutoff : ℕ)
      → IsOrdered (heartbeats_of R s e)
      → (r : ℕ × Store) × (cleanup_event R s e cutoff ≡ some r) × Swept s e cutoff r
  unfolding cleanup_event
  cleanup_event_result s e cutoff o =
      cleanup_rounds-Swept (suc (length (heartbeats_of R s e))) s e cutoff o
        (omega (arith, length-keep-le (λ f. leb f.score cutoff) (heartbeats_of R s e)))
