-- ===== src/Lua/Stock/Examples.antt =====
-- The stock scripts on a store in memory, and their theorems at concrete inputs.
use antretix.Common.{◌-◌, ◌≤◌, ◌≡◌, refl, some, [], ◌∷◌, arith, if◌then◌else◌}
use antretix.Common.Int.{pos, negsuc, ◌+ℤ◌, ◌-ℤ◌}
use antretix.Shared.Keys.{stock, bought, key_eq}
use antretix.Redis.{vacant}
use antretix.Redis.Memory.{Table, memory}
use antretix.Lua.Stock.{reserve}
use antretix.Lua.Stock.Exact.{stock_of}
use antretix.Lua.Stock.Sales.{sell, sell_never_oversells, sell_exact}

-- Two tickets of category 7 of event 1; account 11 holds three tickets already.
abbrev two_left : Table
two_left k =
    if key_eq (stock 1 7) k
    then record vacant { counter = some (pos 2) }
    else if key_eq (bought 1 11) k
    then record vacant { counter = some (pos 3) }
    else vacant

reserve-two_left : (reserve memory two_left (stock 1 7) (bought 1 12) 2 4).0 ≡ pos 0
unfolding reserve ◌-ℤ◌ ◌+ℤ◌
reserve-two_left = refl

reserve-over_limit : (reserve memory two_left (stock 1 7) (bought 1 11) 2 4).0 ≡ negsuc 1
unfolding reserve ◌-ℤ◌ ◌+ℤ◌
reserve-over_limit = refl

sell_never_oversells_example :
    let (sold, s') = sell memory 1 7 4 two_left ((12, 1) ∷ (11, 2) ∷ (13, 2) ∷ (14, 1) ∷ []) in
    (sold ≤ 2) × (stock_of memory s' 1 7 ≡ some (pos (2 - sold)))
sell_never_oversells_example =
    sell_never_oversells memory 1 7 4 two_left 2 ((12, 1) ∷ (11, 2) ∷ (13, 2) ∷ (14, 1) ∷ []) refl

sell_exact_example : (sell memory 1 7 4 two_left ((12, 1) ∷ (13, 1) ∷ (14, 1) ∷ [])).0 ≡ 2
unfolding ◌+ℤ◌
sell_exact_example =
    sell_exact memory 1 7 4 two_left 2 (12 ∷ 13 ∷ 14 ∷ []) refl (ground arith) (omega arith)
