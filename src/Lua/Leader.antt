-- ===== src/Lua/Leader.antt =====
-- packages/lua/scripts/leader.lua: the lock that elects one worker instance.
pub mod Lock
pub mod Examples
use antretix.Common.{ℕ, Bool, true, false, none, some, List, [], ◌∷◌, ◌==◌, if◌then◌else◌}
use antretix.Shared.Keys.{Key}
use antretix.Redis.{Redis, word}

-- What happens to a lock: an instance calls the script, or milliseconds pass.
pub data LockStep : Type 0 where
  call_by wait : ℕ → LockStep

module _ (R : Redis) where
  open R use {Store, slot, set_text_px, pexpire, elapse}

  -- leader.lua; 1 is true, 0 is false. The instance's id is a word.
  unfoldable pub leader : Store → Key → ℕ → ℕ → Bool × Store
  leader s k me ttl = elim (slot s k).text [
    | none ↦ (true, set_text_px s k (word me) ttl)
    | some (word owner) ↦ if owner == me then (true, pexpire s k ttl) else (false, s)
    | some other ↦ (false, s)
  ]

  -- The instances whose calls were answered with 1, in order. All of them ask for the same time.
  unfoldable pub leaders : Store → Key → ℕ → List LockStep → List ℕ
  unfolding leader
  leaders s k ttl [] = []
  leaders s k ttl (LockStep.wait d ∷ steps) = leaders (elapse s d) k ttl steps
  leaders s k ttl (LockStep.call_by who ∷ steps) =
      let (won, s1) = leader s k who ttl in
      let rest = leaders s1 k ttl steps in if won then who ∷ rest else rest
