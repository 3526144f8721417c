-- ===== src/Worker/Turns/Overlap.antt =====
-- jobs.ts, every: a job of one instance does not overlap itself.
use antretix.Common.{
  ℕ, ◌≤◌, ◌≡◌, refl, true, false, not, List, [], ◌∷◌, arith, ◌==◌, keep, All, Bool-cases, inl, inr,
}
use antretix.Worker.Turns.{TimerStep, is_running, on_timer, starts}

-- The step is no end of the job.
abbrev pub EndsNot : ℕ → TimerStep → Type 0
EndsNot name (TimerStep.fire n) = Unit
EndsNot name (TimerStep.finish n) = (n == name) ≡ false

is_running-keep :
    (name n : ℕ) (running : List ℕ)
    → (n == name) ≡ false
    → is_running name (keep (λ x. not (x == n)) running) ≡ is_running name running
is_running-keep name n [] other = refl
is_running-keep name n (x ∷ running) other = ground (arith, is_running-keep name n running other)

starts_running :
    (name : ℕ) (steps : List TimerStep) (running : List ℕ)
    → is_running name running ≡ true
    → All (EndsNot name) steps
    → starts name running steps ≡ 0
unfolding starts on_timer
starts_running name [] running on h = refl
starts_running name (TimerStep.fire n ∷ steps) running on h =
    elim (Bool-cases (is_running n running)) [
      | inl busy ↦ ground (arith, starts_running name steps running on h.1)
      | inr free ↦ ground (arith, starts_running name steps (n ∷ running))
    ]
starts_running name (TimerStep.finish n ∷ steps) running on h = ground (
  arith,
  is_running-keep name n running h.0,
  starts_running name steps (keep (λ x. not (x == n)) running),
)

-- Whatever jobs are running, in any sequence of timer steps in which no run of a job ends, the job
-- starts at most once.
pub starts-le :
    (name : ℕ) (steps : List TimerStep) (running : List ℕ)
    → All (EndsNot name) steps
    → starts name running steps ≤ 1
unfolding starts on_timer
starts-le name [] running h = omega arith
starts-le name (TimerStep.fire n ∷ steps) running h = elim (Bool-cases (is_running n running)) [
  | inl busy ↦ ground (arith, starts-le name steps running h.1)
  | inr free ↦ elim (Bool-cases (n == name)) [
    | inl own ↦ ground (arith, starts_running name steps (n ∷ running))
    | inr other ↦ ground (arith, starts-le name steps (n ∷ running) h.1)
  ]
]
starts-le name (TimerStep.finish n ∷ steps) running h =
    ground (arith, starts-le name steps (keep (λ x. not (x == n)) running) h.1)
