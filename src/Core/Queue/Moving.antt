-- ===== src/Core/Queue/Moving.antt =====
-- While the sale is open, one call of join, of a tick or of leave moves the waiting room as it moves
-- a line: newcomers go to the end, and only the front is served.
use antretix.Common.{
  ℕ, zero, suc, ◌*◌, ◌≤◌, ◌<◌, ◌≡◌, refl, sym, ◌∙◌, ap, subst, false, some, List, [], ◌∷◌, ◌++◌,
  map, drop, length, ◌||◌, if◌then◌else◌, arith, All, Bool-cases, inl, inr,
}
use antretix.Shared.Constants.{open_}
use antretix.Shared.Keys
use antretix.Shared.Keys.{Key, key_eq}
use antretix.Redis.{Redis, Entry, Member, id, above, queue_status, has, without}
use antretix.Redis.Order.{IsOrdered, drop-IsOrdered, without-IsOrdered, All-without}
use antretix.Lua.Queue.{join, admit, is_admitted, stock_total, ms_score}
use antretix.Lua.Queue.Joining.{queue_of, join-IsOrdered, join_again, join_latecomer}
use antretix.Lua.Queue.Admission.{active_of, places, admit_result}
use antretix.Lua.Queue.Frame.{status_of, status_of-admit, status_of-join, join_turned_away}
use antretix.Lua.Queue.Line.{
  is_in_line, out_of_line, line_of, line_of-append, line_of-drop, line_of-without,
  is_in_line-line_of,
}
use antretix.Core.Queue.{leave_queue}

-- What a client or the worker asks of the waiting room of an event. A tick looks at the stock of
-- the categories that it names.
pub data RoomCall : Type 0 where
  join_by : ℕ → ℕ → RoomCall  -- the account, and its lot
  tick : ℕ → ℕ → ℕ → List ℕ → RoomCall  -- the rate, the most sessions, their time, the categories
  leave_by : ℕ → RoomCall

abbrev stock_keys_of : ℕ → List ℕ → List Key
stock_keys_of e cs = map (λ c. Keys.stock e c) cs

active_apart :
    (e : ℕ) (cs : List ℕ) → All (λ k. key_eq (Keys.active e) k ≡ false) (stock_keys_of e cs)
active_apart e [] = tt
active_apart e (c ∷ cs) = (refl, active_apart e cs)

All-drop :
    (limit n : ℕ) (es : List Entry)
    → All (λ f. f.score ≤ limit) es
    → All (λ f. f.score ≤ limit) (drop n es)
All-drop limit zero es h = h
All-drop limit (suc n) [] h = tt
All-drop limit (suc n) (e ∷ es) h = All-drop limit n es h.1

All-later :
    (limit later : ℕ) (es : List Entry)
    → limit < later
    → All (λ f. f.score ≤ limit) es
    → All (λ f. f.score < later) es × All (λ f. f.score ≤ later) es
All-later limit later [] l h = (tt, tt)
All-later limit later (e ∷ es) l h =
    let (below, within) = All-later limit later es l h.1 in
    ((omega (arith, h.0, l), below), (omega (arith, h.0, l), within))

All-append :
    (limit : ℕ) (es : List Entry) (e : Entry)
    → All (λ f. f.score ≤ limit) es
    → e.score ≤ limit
    → All (λ f. f.score ≤ limit) (es ++ e ∷ [])
All-append limit [] e h k = (k, tt)
All-append limit (x ∷ es) e h k = (h.0, All-append limit es e h.1 k)

module _ (R : Redis) where
  open R use {Store, slot, slot-zrem, slot-del}

  unfoldable pub answer : Store → ℕ → ℕ → RoomCall → Store
  answer s e now (join_by user random) = (join R s e user now random).1
  answer s e now (tick rate max_active ttl cs) =
      (admit R s e (stock_keys_of e cs) now rate max_active ttl).1
  answer s e now (leave_by user) = leave_queue R s e user

  -- The sale is open, the queue is ordered, and nobody in it came after `now`.
  pub record IsOpenRoom (s : Store) (e now : ℕ) : Type 0 where
    pub is_open : status_of R s e ≡ some (queue_status open_)
    pub ordered : IsOrdered (queue_of R s e)
    pub past : All (λ f. f.score ≤ now * ms_score) (queue_of R s e)

  -- What a call does to a line of members. A newcomer without a session goes to the end; a tick
  -- serves the front, as many as the rate, the sessions below the maximum and the stock allow; who
  -- leaves is taken out. Of the store it reads the sessions and the stock, not the queue.
  pub moved_line : Store → ℕ → ℕ → RoomCall → List Member → List Member
  moved_line s e now (join_by user random) line =
      if is_in_line (id user) line || is_admitted R s e user then line else line ++ id user ∷ []
  moved_line s e now (tick rate max_active ttl cs) line =
      drop
        (places rate max_active (length (above now (active_of R s e)))
          (stock_total R s (stock_keys_of e cs)))
        line
  moved_line s e now (leave_by user) line = out_of_line (id user) line

  -- A queue moves as the line does, and the room stays one.
  abbrev pub Simulates : Store → ℕ → ℕ → RoomCall → Store → Type 0
  Simulates s e now call s' =
      (line_of (queue_of R s' e) ≡ moved_line s e now call (line_of (queue_of R s e)))
      × IsOpenRoom s' e now

  same_queue-IsOpenRoom :
      (s s' : Store) (e t now : ℕ)
      → t < now
      → IsOpenRoom s e t
      → status_of R s' e ≡ status_of R s e
      → queue_of R s' e ≡ queue_of R s e
      → IsOpenRoom s' e now
  same_queue-IsOpenRoom s s' e t now later room status same = record {
    is_open = status ∙ room.is_open;
    ordered = subst IsOrdered (sym same) room.ordered;
    past =
        subst (All (λ f. f.score ≤ now * ms_score)) (sym same)
          (All-later (t * ms_score) (now * ms_score) (queue_of R s e) (omega (arith, later))
            room.past).1;
  }

  join_by-Simulates :
      (s : Store) (e t now user random : ℕ)
      → t < now
      → IsOpenRoom s e t
      → Simulates s e now (join_by user random) (join R s e user now random).1
  unfolding moved_line
  join_by-Simulates s e t now user random later room =
      let s' = (join R s e user now random).1 in
      let queue = queue_of R s e in
      let status = status_of-join R s e user now random in
      let (before, within) =
        All-later (t * ms_score) (now * ms_score) queue (omega (arith, later)) room.past in
      elim (Bool-cases (has (id user) queue)) [
        | inl there ↦
            let same = (join_again R s e user now random there).0 in
            (
              rw (is_in_line-line_of (id user) queue, there) (ap line_of same),
              same_queue-IsOpenRoom s s' e t now later room status same,
            )
        | inr absent ↦ elim (Bool-cases (is_admitted R s e user)) [
          | inl inside ↦
              let same = join_turned_away R s e user now random room.is_open inside in
              let kept = ap (λ x. queue_of R x e) same in
              (
                rw (is_in_line-line_of (id user) queue, absent, inside) (ap line_of kept),
                same_queue-IsOpenRoom s s' e t now later room status kept,
              )
          | inr outside ↦
              let entry : Entry = record { member = id user; score = now * ms_score } in
              let (code, added, rank, behind) =
                join_latecomer R s e user now random (rw (room.is_open) refl) outside absent
                  before in
              (
                rw (is_in_line-line_of (id user) queue, absent, outside)
                    (ap line_of behind ∙ line_of-append queue entry),
                record {
                  is_open = status ∙ room.is_open;
                  ordered = join-IsOrdered R s e user now random room.ordered;
                  past =
                      subst (All (λ f. f.score ≤ now * ms_score)) (sym behind)
                        (All-append (now * ms_score) queue entry within (omega arith));
                },
              )
        ]
      ]

  tick-Simulates :
      (s : Store) (e t now rate max_active ttl : ℕ) (cs : List ℕ)
      → t < now
      → IsOpenRoom s e t
      → Simulates s e now
          (tick rate max_active ttl cs)
          (admit R s e (stock_keys_of e cs) now rate max_active ttl).1
  unfolding moved_line
  tick-Simulates s e t now rate max_active ttl cs later room =
      let keys = stock_keys_of e cs in
      let queue = queue_of R s e in
      let (count, left, bound) =
        admit_result R s e now rate max_active ttl keys (active_apart e cs) room.is_open in
      let within =
        (All-later (t * ms_score) (now * ms_score) queue (omega (arith, later)) room.past).1 in
      (
        ap line_of left ∙ line_of-drop _ queue,
        record {
          is_open = status_of-admit R s e now rate max_active ttl keys ∙ room.is_open;
          ordered = subst IsOrdered (sym left) (drop-IsOrdered _ queue room.ordered);
          past =
              subst (All (λ f. f.score ≤ now * ms_score)) (sym left)
                (All-drop (now * ms_score) _ queue within);
        },
      )

  leave_by-Simulates :
      (s : Store) (e t now user : ℕ)
      → t < now
      → IsOpenRoom s e t
      → Simulates s e now (leave_by user) (leave_queue R s e user)
  unfolding leave_queue moved_line
  leave_by-Simulates s e t now user later room =
      let queue = queue_of R s e in
      let left : queue_of R (leave_queue R s e user) e ≡ without (id user) queue =
        grind (arith, slot-zrem, slot-del) in
      let status : status_of R (leave_queue R s e user) e ≡ status_of R s e =
        grind (arith, slot-zrem, slot-del) in
      let within =
        (All-later (t * ms_score) (now * ms_score) queue (omega (arith, later)) room.past).1 in
      (
        ap line_of left ∙ line_of-without (id user) queue,
        record {
          is_open = status ∙ room.is_open;
          ordered = subst IsOrdered (sym left) (without-IsOrdered (id user) queue room.ordered);
          past =
              subst (All (λ f. f.score ≤ now * ms_score)) (sym left)
                (All-without (λ f. f.score ≤ now * ms_score) (id user) queue within);
        },
      )

  pub answer-Simulates :
      (s : Store) (e t now : ℕ) (call : RoomCall)
      → t < now
      → IsOpenRoom s e t
      → Simulates s e now call (answer s e now call)
  unfolding answer
  answer-Simulates s e t now (join_by user random) later room =
      join_by-Simulates s e t now user random later room
  answer-Simulates s e t now (tick rate max_active ttl cs) later room =
      tick-Simulates s e t now rate max_active ttl cs later room
  answer-Simulates s e t now (leave_by user) later room =
      leave_by-Simulates s e t now user later room
