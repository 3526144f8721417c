-- ===== src/Api/Routes/Stream/Ending.antt =====
-- A stream says that it is over once, as its last word.
use antretix.Common.{
  ◌≤◌, ◌≡◌, ◌⊎◌, refl, inl, inr, Bool, true, false, not, ◌||◌, List, [], ◌∷◌, arith, all,
  Bool-cases,
}
use antretix.Core.Queue.{QueueState}
use antretix.Api.Routes.Stream.{
  is_final_state, Stream, started, finish, push, pushed, push_failed, Step, ticks, answers, fails,
  hangs_up, Reach, here, next,
}

-- No state but the newest is final.
abbrev pub ends_once : {T : Type 0} → List (QueueState T) → Bool
ends_once [] = true
ends_once (a ∷ rest) = all (λ b. not (is_final_state b)) rest

abbrev pub has_ended : {T : Type 0} → List (QueueState T) → Bool
has_ended [] = false
has_ended (a ∷ rest) = is_final_state a

record IsSound {T : Type 0} (s : Stream T) : Type 0 where
  once : ends_once s.written ≡ true
  over : (not (has_ended s.written) || s.closed) ≡ true
  timed : s.timer ≡ not s.closed

module _ {T : Type 0} where
  -- An open stream has said nothing final yet.
  none_final :
      (l : List (QueueState T))
      → ends_once l ≡ true
      → has_ended l ≡ false
      → all (λ b. not (is_final_state b)) l ≡ true
  none_final [] h k = refl
  none_final (a ∷ rest) h k = ground arith

  Step-IsSound : {s t : Stream T} → Step s t → IsSound s → IsSound t
  unfolding push pushed push_failed finish
  Step-IsSound (ticks t) v = ground arith
  Step-IsSound {s} (answers a p) v = ground (arith, none_final s.written)
  Step-IsSound (fails p) v = ground arith
  Step-IsSound hangs_up v = ground arith

  Reach-IsSound : {s t : Stream T} → Reach s t → IsSound s → IsSound t
  Reach-IsSound here v = v
  Reach-IsSound (next r st) v = Step-IsSound st (Reach-IsSound r v)

  Step-closed :
      {s t : Stream T}
      → Step s t
      → IsSound s
      → s.closed ≡ true
      → (t.closed ≡ true) × (t.written ≡ s.written) × (t.pushes ≤ s.pushes)
  unfolding push pushed push_failed finish
  Step-closed (ticks t) v h = ground arith
  Step-closed (answers a p) v h = ground arith
  Step-closed (fails p) v h = ground arith
  Step-closed hangs_up v h = ground arith

  Reach-closed :
      {s t : Stream T}
      → Reach s t
      → IsSound s
      → s.closed ≡ true
      → (t.closed ≡ true) × (t.written ≡ s.written) × (t.pushes ≤ s.pushes)
  Reach-closed here v h = ground arith
  Reach-closed (next r st) v h =
      let before = Reach-closed r v h in
      let after = Step-closed st (Reach-IsSound r v) before.0 in ground arith

  -- Whatever the timer, the states and the client do: among the states that a stream has written
  -- at most the last is final; the timer runs exactly while the response is open; and once a final
  -- state is written the response has ended, and from then on, as after any other end, nothing is
  -- written and no push begins.
  pub stream_ends :
      (s t : Stream T)
      → Reach started s
      → Reach s t
      → (ends_once s.written ≡ true)
        × (s.timer ≡ not s.closed)
        × ((has_ended s.written ≡ false) ⊎ (s.closed ≡ true))
        × ((s.closed ≡ false) ⊎ (t.closed ≡ true) × (t.written ≡ s.written) × (t.pushes ≤ s.pushes))
  stream_ends s t r later =
      let v = Reach-IsSound r (record { once = refl; over = refl; timed = refl }) in
      (
        v.once,
        v.timed,
        ended s.closed (has_ended s.written) v.over,
        elim (Bool-cases s.closed) [ inl h ↦ inr (Reach-closed later v h) | inr h ↦ inl h ],
      )
    where
      ended : (c h : Bool) → (not h || c) ≡ true → (h ≡ false) ⊎ (c ≡ true)
      ended c false e = inl refl
      ended c true e = inr e
