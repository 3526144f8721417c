-- ===== src/Worker/Turns.antt =====
-- jobs.ts: when a job runs. A job of one instance does not overlap itself, and a job under a lock
-- runs on one instance at a time.
pub mod Overlap
use antretix.Common.{
  ℕ, ◌*◌, Bool, true, false, List, [], ◌∷◌, not, ◌==◌, ◌||◌, ◌&&◌, suc, if◌then◌else◌, keep,
}
use antretix.Shared.Keys
use antretix.Redis.{Redis}
use antretix.Core.Context.{World}
use antretix.Lua.Leader.{leader}

-- running.has(name); a name is an opaque word.
abbrev pub is_running : ℕ → List ℕ → Bool
is_running name [] = false
is_running name (n ∷ ns) = (n == name) || is_running name ns

-- The timer of a job fires, or a run of it ends, well or not.
pub data TimerStep : Type 0 where
  fire finish : ℕ → TimerStep

abbrev pub is_step_of : ℕ → TimerStep → Bool
is_step_of name (TimerStep.fire n) = n == name
is_step_of name (TimerStep.finish n) = n == name

-- What `every` does to the set of the running jobs, and whether it starts the job.
unfoldable pub on_timer : List ℕ → TimerStep → Bool × List ℕ
on_timer running (TimerStep.fire name) =
    if is_running name running then (false, running) else (true, name ∷ running)
on_timer running (TimerStep.finish name) = (false, keep (λ n. not (n == name)) running)

-- How often a job starts in a sequence of steps.
unfoldable pub starts : ℕ → List ℕ → List TimerStep → ℕ
unfolding on_timer
starts name running [] = 0
starts name running (step ∷ steps) =
    let (started, running1) = on_timer running step in
    let rest = starts name running1 steps in
    if started && is_step_of name step then suc rest else rest

module _ (R : Redis) where
  unfoldable pub with_job_lock : World R → ℕ → ℕ → ℕ → (World R → World R) → World R
  with_job_lock w instance_id job interval_ms run =
      let (is_leader, s1) = leader R w.redis (Keys.job_lock job) instance_id (interval_ms * 2) in
      if is_leader then run (record w { redis = s1 }) else record w { redis = s1 }
