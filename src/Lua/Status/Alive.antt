-- ===== src/Lua/Status/Alive.antt =====
-- A user who asks for the status is alive: the cleanup drops only those who have stopped asking.
use antretix.Common.{
  ℕ, zero, suc, ◌<◌, ◌≡◌, refl, ◌∙◌, ap, Option-cases, inl, inr, Bool, true, false, List, [], ◌∷◌,
  arith, take,
}
use antretix.Shared.Keys
use antretix.Shared.Keys.{Key, key_eq}
use antretix.Redis.{Redis, Entry, Member, id, has, without, at_most, insert, zadd_entries, rank_of}
use antretix.Redis.Order.{has-without_self, has-without_other, rank_of-has}
use antretix.Lua.Queue.{cleanup, drop_stale}
use antretix.Lua.Queue.Joining.{queue_of}
use antretix.Lua.Status.{status, beat}

has-take : (m : Member) (n : ℕ) (es : List Entry) → has m es ≡ false → has m (take n es) ≡ false
has-take m zero es h = refl
has-take m (suc n) [] h = refl
has-take m (suc n) (e ∷ es) h = ground (arith, has-take m n es)

has-at_most :
    (m : Member) (cutoff : ℕ) (es : List Entry)
    → has m es ≡ false
    → has m (at_most cutoff es) ≡ false
has-at_most m cutoff [] h = refl
has-at_most m cutoff (e ∷ es) h = ground (arith, has-at_most m cutoff es)

at_most-insert :
    (tie : Member → Member → Bool) (cutoff : ℕ) (e : Entry) (es : List Entry)
    → cutoff < e.score
    → at_most cutoff (insert tie e es) ≡ at_most cutoff es
at_most-insert tie cutoff e [] h = ground arith
at_most-insert tie cutoff e (f ∷ es) h = ground (arith, at_most-insert tie cutoff e es h)

module _ (R : Redis) where
  open R use {Store, slot, tie, zrem, slot-zadd_xx, slot-zrem}

  abbrev pub heartbeats_of : Store → ℕ → List Entry
  heartbeats_of s e = (slot s (Keys.heartbeat e)).zset

  -- Who is not among the stale keeps the place.
  drop_stale_spares :
      (m : Member) (stale : List Entry) (s : Store) (e : ℕ)
      → has m stale ≡ false
      → has m (queue_of R (drop_stale R s e stale) e) ≡ has m (queue_of R s e)
  unfolding drop_stale
  drop_stale_spares m [] s e h = refl
  drop_stale_spares m (x ∷ stale) s e h =
      let s1 = zrem (zrem s (Keys.queue e) x.member) (Keys.heartbeat e) x.member in
      let gone : queue_of R s1 e ≡ without x.member (queue_of R s e) = grind (arith, slot-zrem) in
      drop_stale_spares m stale s1 e (ground arith)
      ∙ ap (has m) gone
      ∙ has-without_other m x.member (queue_of R s e) (ground arith)

  -- What a call of status.lua writes: the heartbeat of a user who has a place.
  pub queue_of-status :
      (s : Store) (e u now window : ℕ) (ks : List Key)
      → queue_of R (status R s e u now window ks).1 e ≡ queue_of R s e
  unfolding status beat
  queue_of-status s e u now window ks = elim (Option-cases (rank_of (id u) (queue_of R s e))) [
    | inl absent ↦ ground arith
    | inr (r, there) ↦ grind (arith, slot-zadd_xx)
  ]

  heartbeats_of-status :
      (s : Store) (e u now window : ℕ) (ks : List Key)
      → has (id u) (queue_of R s e) ≡ true
      → has (id u) (heartbeats_of s e) ≡ true
      → heartbeats_of (status R s e u now window ks).1 e
        ≡ zadd_entries tie now (id u) (heartbeats_of s e)
  unfolding status beat
  heartbeats_of-status s e u now window ks there beating =
      let (r, f) = rank_of-has (id u) (queue_of R s e) there in grind (arith, slot-zadd_xx)

  not_stale :
      (now cutoff u batch : ℕ) (es : List Entry)
      → cutoff < now
      → has (id u) (take batch (at_most cutoff (zadd_entries tie now (id u) es))) ≡ false
  not_stale now cutoff u batch es late = has-take (id u) batch _ (
      rw
        (at_most-insert tie cutoff (record { member = id u; score = now }) (without (id u) es) late)
        (has-at_most (id u) cutoff (without (id u) es) (has-without_self (id u) es)))

  -- A user with a place and a heartbeat who asks for the status at a time after the cutoff is not
  -- dropped by the next cleanup, whoever else is and however large its batch.
  pub status_keeps_place :
      (s : Store) (e u now window cutoff batch : ℕ) (ks : List Key)
      → has (id u) (queue_of R s e) ≡ true
      → has (id u) (heartbeats_of s e) ≡ true
      → cutoff < now
      → let s1 = (status R s e u now window ks).1 in
        has (id u) (queue_of R (cleanup R s1 e cutoff batch).1 e) ≡ true
  unfolding cleanup
  status_keeps_place s e u now window cutoff batch ks there beating late =
      let s1 = (status R s e u now window ks).1 in
      let stale = take batch (at_most cutoff (heartbeats_of s1 e)) in
      let spared : has (id u) stale ≡ false =
        rw (heartbeats_of-status s e u now window ks there beating)
          (not_stale now cutoff u batch (heartbeats_of s e) late) in
      drop_stale_spares (id u) stale s1 e spared
      ∙ ap (has (id u)) (queue_of-status s e u now window ks)
      ∙ there
