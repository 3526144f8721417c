-- ===== src/Core/Queue/Position.antt =====
-- queue.ts: what a user is told is true of the store, and what comes of it in the next tick.
use antretix.Common.{
  ℕ, suc, ◌-◌, ◌≤◌, ◌<◌, ◌≡◌, refl, true, false, ◌&&◌, some, none, arith, All, length, Bool-cases,
  inl, inr, Option, subst,
}
use antretix.Common.Int.{pos, pos_part, ltb_ℤ}
use antretix.Shared.Constants.{QueueStatus, prequeue, sold_out, scheduled}
use antretix.Shared.Double.{Double}
use antretix.Shared.Keys
use antretix.Shared.Keys.{Key, key_eq}
use antretix.Redis.{Redis, Text, id, queue_status, rank_of, score_of, has, above}
use antretix.Lua.Queue.{rank_reply, stock_total, admit}
use antretix.Lua.Queue.Joining.{queue_of}
use antretix.Lua.Queue.Admission.{active_of, places}
use antretix.Lua.Queue.Entering.{admit_moves_up}
use antretix.Lua.Status.{status, text_or_scheduled, pttl}
use antretix.Lua.Status.Alive.{queue_of-status}
use antretix.Core.Events.{EventMeta}
use antretix.Core.Queue.{
  QueueTokenClaims, QueueState, Waiting, waiting_room, not_started, waiting, admitted, not_in_queue,
  sold_out_state, get_queue_state, state_of, waiting_state, is_status, eta_window_ms,
}

rank_reply_pos :
    (o : Option ℕ) → ltb_ℤ (rank_reply o) (pos 0) ≡ false → o ≡ some (pos_part (rank_reply o))
rank_reply_pos none h = ground arith
rank_reply_pos (some r) h = refl

rank_reply_neg : (o : Option ℕ) → ltb_ℤ (rank_reply o) (pos 0) ≡ true → o ≡ none
rank_reply_neg none h = refl
rank_reply_neg (some r) h = ground arith

rank_reply_above :
    (o : Option ℕ) (now : ℕ)
    → ltb_ℤ (pos now) (rank_reply o) ≡ true
    → (t : ℕ) × (o ≡ some t) × (rank_reply o ≡ pos t) × (now < t)
rank_reply_above none now h = ground arith
rank_reply_above (some t) now h = (t, refl, refl, ground arith)

module _ (D : Double) (R : Redis) {T : Type 0} (sign : QueueTokenClaims → T) where
  open R use {Store, slot}

  abbrev status_text : Store → EventMeta → Text
  status_text s meta = text_or_scheduled (slot s (Keys.status meta.event.id)).text

  -- What the store holds when the user is told so.
  abbrev pub IsTrue : Store → EventMeta → ℕ → ℕ → QueueState T → Type 0
  IsTrue s meta user now sold_out_state = is_status (status_text s meta) sold_out ≡ true
  IsTrue s meta user now (admitted token expires) =
      (token ≡ sign (record { user_id = user; event_id = meta.event.id; expires_at_ms = expires }))
      × ((t : ℕ) × (score_of (id user) (active_of R s meta.event.id) ≡ some t)
          × (expires ≡ pos t)
          × (now < t))
  IsTrue s meta user now (not_started room sale) = is_status (status_text s meta) scheduled ≡ true
  IsTrue s meta user now (not_in_queue q) = rank_of (id user) (queue_of R s meta.event.id) ≡ none
  IsTrue s meta user now (waiting_room sale) =
      (is_status (status_text s meta) prequeue ≡ true)
      × ((r : ℕ) × (rank_of (id user) (queue_of R s meta.event.id) ≡ some r))
  IsTrue s meta user now (waiting w) =
      (rank_of (id user) (queue_of R s meta.event.id) ≡ some w.ahead)
      × (w.position ≡ suc w.ahead)
      × (w.total ≡ length (queue_of R s meta.event.id))

  state_of-IsTrue :
      (s : Store) (meta : EventMeta) (user now : ℕ)
      → let snapshot = (status R s meta.event.id user now eta_window_ms meta.stock_keys).0 in
        IsTrue s meta user now (state_of D sign meta user now snapshot)
  unfolding state_of waiting_state status
  state_of-IsTrue s meta user now =
      let queue = queue_of R s meta.event.id in
      let t = status_text s meta in
      let h = slot s (Keys.admitted meta.event.id user) in
      let score = score_of (id user) (active_of R s meta.event.id) in
      elim (Bool-cases (is_status t sold_out)) [
        | inl over ↦ rw over over
        | inr on ↦
            elim (Bool-cases (ltb_ℤ (pos 0) (pttl h) && ltb_ℤ (pos now) (rank_reply score))) [
              | inl live ↦ rw (on, live) (refl, rank_reply_above score now (ground arith))
              | inr outside ↦ elim (Bool-cases (is_status t scheduled)) [
                | inl early ↦ rw (on, outside, early) early
                | inr begun ↦
                    elim (Bool-cases (ltb_ℤ (rank_reply (rank_of (id user) queue)) (pos 0))) [
                      | inl absent ↦ rw (on, outside, begun, absent) (rank_reply_neg _ absent)
                      | inr placed ↦ elim (Bool-cases (is_status t prequeue)) [
                        | inl lot ↦
                            rw (on, outside, begun, placed, lot) (lot, (_, rank_reply_pos _ placed))
                        | inr sale ↦
                            rw (on, outside, begun, placed, sale)
                              (rank_reply_pos _ placed, refl, refl)
                      ]
                    ]
              ]
            ]
      ]

  -- Whatever the status of the event, what getQueueState tells a user is true of the store that it
  -- read, and reading leaves the queue as it was. An admitted user has a token for this account
  -- and event that expires together with the session in Redis, which is not over; a waiting user
  -- has as many others in front as told, one position more, and the queue has the length told; in
  -- the waiting room there is a place, and out of the queue there is none; and the event is sold
  -- out or not started when the user is told so.
  pub get_queue_state_result :
      (s : Store) (meta : EventMeta) (user now : ℕ)
      → let (state, s') = get_queue_state D R sign s meta user now in
        IsTrue s meta user now state × (queue_of R s' meta.event.id ≡ queue_of R s meta.event.id)
  unfolding get_queue_state
  get_queue_state_result s meta user now = (
    state_of-IsTrue s meta user now,
    queue_of-status R s meta.event.id user now eta_window_ms meta.stock_keys,
  )

  -- A user who is told to be waiting, and then a tick on that store at any time with any rates,
  -- while the queue is open and no key of the stock is the key of the active set: when fewer than
  -- the places that the tick fills were told to be ahead, the user has a session afterwards;
  -- otherwise the user is in the queue with just as many fewer ahead.
  pub waiting_moves_up :
      (s : Store) (meta : EventMeta) (user now later rate max_active ttl : ℕ) (w : Waiting)
      → (get_queue_state D R sign s meta user now).0 ≡ waiting w
      → All (λ k. key_eq (Keys.active meta.event.id) k ≡ false) meta.stock_keys
      → (slot s (Keys.status meta.event.id)).text ≡ some (queue_status QueueStatus.open_)
      → let k =
          places rate max_active
            (length (above later (active_of R s meta.event.id)))
            (stock_total R s meta.stock_keys) in
        let s' = (admit R s meta.event.id meta.stock_keys later rate max_active ttl).1 in
        (w.ahead < k → has (id user) (active_of R s' meta.event.id) ≡ true)
        × (k ≤ w.ahead → rank_of (id user) (queue_of R s' meta.event.id) ≡ some (w.ahead - k))
  waiting_moves_up s meta user now later rate max_active ttl w told apart is_open =
      let truth : IsTrue s meta user now (waiting w) =
        subst (IsTrue s meta user now) told (get_queue_state_result s meta user now).0 in
      admit_moves_up R (id user) s meta.event.id later rate max_active ttl w.ahead meta.stock_keys
        apart is_open truth.0
