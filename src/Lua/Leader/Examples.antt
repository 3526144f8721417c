-- ===== src/Lua/Leader/Examples.antt =====
-- The leader lock on a store in memory, and its theorems at concrete inputs.
use antretix.Common.{◌≡◌, refl, true, List, [], ◌∷◌, arith, All}
use antretix.Shared.Keys
use antretix.Redis.{vacant}
use antretix.Redis.Memory.{memory}
use antretix.Lua.Leader.{LockStep, leader, leaders}
use antretix.Lua.Leader.Lock.{leader_exclusive, leader_handover}

-- Instance 5 takes the lock for 5000 ms, instance 6 asks twice, and instance 5 asks between.
abbrev asks : List LockStep
asks =
    LockStep.wait 2000
    ∷ LockStep.call_by 6
    ∷ LockStep.call_by 5
    ∷ LockStep.wait 2900
    ∷ LockStep.call_by 6
    ∷ []

abbrev lock : Keys.Key
lock = Keys.admission_lock 1

leaders-asks : leaders memory (leader memory (λ k. vacant) lock 5 5000).1 lock 5000 asks ≡ 5 ∷ []
unfolding leaders
leaders-asks = refl

leader_exclusive_example :
    All (λ who. who ≡ 5) (leaders memory (leader memory (λ k. vacant) lock 5 5000).1 lock 5000 asks)
unfolding leader
leader_exclusive_example = leader_exclusive memory (λ k. vacant) lock 5 5000 asks refl (omega arith)

leader_handover_example :
    (leader memory (memory.elapse (leader memory (λ k. vacant) lock 5 5000).1 5000) lock 6 5000).0
    ≡ true
unfolding leader
leader_handover_example = leader_handover memory (λ k. vacant) lock 5 6 5000 5000 refl refl
