-- ===== src/Lua/Stock/Sales.antt =====
-- Many calls of reserve.lua on one category, in any order: Redis runs scripts one after another,
-- so a burst of buyers is a list of calls.
use antretix.Common.{
  ℕ, ◌+◌, ◌-◌, ◌≤◌, ◌≡◌, ◌∙◌, ap, some, false, List, [], ◌∷◌, map, min, arith, ◌==◌, if◌then◌else◌,
  All, length,
}
use antretix.Common.Int.{ℤ, pos, ◌+ℤ◌, ◌≤ℤ◌, ltb_ℤ, -ℤ_parts}
use antretix.Shared.Keys.{stock, bought}
use antretix.Redis.{Redis}
use antretix.Lua.Stock.{reserve}
use antretix.Lua.Stock.Exact.{stock_of, held_of, reserve_result}

-- The tickets that a reply stands for: none if it is negative.
abbrev pub granted : ℤ → ℕ → ℕ
granted reply qty = if ltb_ℤ reply (pos 0) then 0 else qty

-- No account is listed twice.
abbrev pub Distinct : List ℕ → Type 0
Distinct [] = Unit
Distinct (u ∷ users) = All (λ v. (u == v) ≡ false) users × Distinct users

module _ (R : Redis) (e c limit : ℕ) where
  open R use {Store, slot-incrby, slot-decrby}

  -- The tickets that a list of calls, each by a user for a number of tickets, was granted.
  unfoldable pub sell : Store → List (ℕ × ℕ) → ℕ × Store
  sell s [] = (0, s)
  sell s ((u, qty) ∷ calls) =
      let (reply, s') = reserve R s (stock e c) (bought e u) qty limit in
      let (sold, s'') = sell s' calls in (granted reply qty + sold, s'')

  -- One call takes from the stock just what it grants.
  reserve_sells :
      (s : Store) (u qty n : ℕ)
      → stock_of R s e c ≡ some (pos n)
      → let (reply, s') = reserve R s (stock e c) (bought e u) qty limit in
        (granted reply qty ≤ n) × (stock_of R s' e c ≡ some (pos (n - granted reply qty)))
  reserve_sells s u qty n h =
      ground (arith, reserve_result R s e c u qty limit, -ℤ_parts (pos n) (pos qty))

  -- When a category has n tickets in stock, then whatever calls of reserve.lua for it come in, and
  -- in whatever order, they are granted n tickets at most, and the stock is short of just those.
  pub sell_never_oversells :
      (s : Store) (n : ℕ) (calls : List (ℕ × ℕ))
      → stock_of R s e c ≡ some (pos n)
      → let (sold, s') = sell s calls in (sold ≤ n) × (stock_of R s' e c ≡ some (pos (n - sold)))
  unfolding sell
  sell_never_oversells s n [] h = (omega arith, ground arith)
  sell_never_oversells s n ((u, qty) ∷ calls) h =
      let (reply, s') = reserve R s (stock e c) (bought e u) qty limit in
      let (fits, left) = reserve_sells s u qty n h in
      let (rest, final) = sell_never_oversells s' (n - granted reply qty) calls left in
      (omega arith, final ∙ ap (λ k. some (pos k)) (omega arith))

  -- A call for one account leaves the counts of the others alone.
  held_of-reserve_ne :
      (s : Store) (u v qty : ℕ)
      → (u == v) ≡ false
      → held_of R (reserve R s (stock e c) (bought e u) qty limit).1 e v ≡ held_of R s e v
  unfolding reserve
  held_of-reserve_ne s u v qty h = grind (arith, slot-incrby, slot-decrby)

  -- The account may still take one ticket.
  abbrev pub MayBuy : Store → ℕ → Type 0
  MayBuy s u = held_of R s e u +ℤ pos 1 ≤ℤ pos limit

  MayBuy-others :
      (s : Store) (u qty : ℕ) (users : List ℕ)
      → All (λ v. (u == v) ≡ false) users
      → All (MayBuy s) users
      → All (MayBuy (reserve R s (stock e c) (bought e u) qty limit).1) users
  MayBuy-others s u qty [] d m = tt
  MayBuy-others s u qty (v ∷ users) d m =
      (rw (held_of-reserve_ne s u v qty d.0) m.0, MayBuy-others s u qty users d.1 m.1)

  reserve_one :
      (s : Store) (u n : ℕ)
      → stock_of R s e c ≡ some (pos n)
      → MayBuy s u
      → granted (reserve R s (stock e c) (bought e u) 1 limit).0 1 ≡ min 1 n
  unfolding reserve
  reserve_one s u n h m = grind (arith, -ℤ_parts)

  -- When distinct accounts that may each take one more ticket ask for one each of a category that
  -- has n in stock, exactly as many tickets are granted as there are accounts or tickets, whichever
  -- is less.
  pub sell_exact :
      (s : Store) (n : ℕ) (users : List ℕ)
      → stock_of R s e c ≡ some (pos n)
      → Distinct users
      → All (MayBuy s) users
      → (sell s (map (λ u. (u, 1)) users)).0 ≡ min (length users) n
  unfolding sell
  sell_exact s n [] h d m = omega arith
  sell_exact s n (u ∷ users) h d m =
      let (reply, s') = reserve R s (stock e c) (bought e u) 1 limit in
      let (fits, left) = reserve_sells s u 1 n h in
      let rest = MayBuy-others s u 1 users d.0 m.1 in
      omega
        (arith, reserve_one s u n h m.0, sell_exact s' (n - granted reply 1) users left d.1 rest)
