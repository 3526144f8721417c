-- ===== src/Lua/Stock/Exact.antt =====
-- What one call of reserve.lua and release.lua does to the stock and to the account's count.
use antretix.Common.{
  ℕ, ◌≡◌, ◌⊎◌, inl, inr, Option, none, some, false, arith, Option-cases, Bool-cases,
}
use antretix.Common.Int.{ℤ, pos, negsuc, ◌+ℤ◌, ◌-ℤ◌, ◌≤ℤ◌, ◌<ℤ◌, ltb_ℤ, -ℤ_parts, eq_of_parts}
use antretix.Shared.Keys.{Key, stock, bought, key_eq}
use antretix.Redis.{Redis, or_zero}
use antretix.Lua.Stock.{reserve, release}

module _ (R : Redis) where
  open R use {Store, slot, slot-incrby, slot-decrby, slot-set_number, slot-del}

  -- The stock of a category, and how many tickets an account holds according to Redis.
  abbrev pub stock_of : Store → ℕ → ℕ → Option ℤ
  stock_of s e c = (slot s (stock e c)).counter

  abbrev pub held_of : Store → ℕ → ℕ → ℤ
  held_of s e u = or_zero (slot s (bought e u)).counter

  -- No other key has changed.
  abbrev pub Untouched : Store → ℕ → ℕ → ℕ → Store → Type 0
  Untouched s e c u s' =
      (j : Key)
      → key_eq (stock e c) j ≡ false
      → key_eq (bought e u) j ≡ false
      → slot s' j ≡ slot s j

  abbrev pub Grants : Store → ℕ → ℕ → ℕ → ℕ → ℕ → ℤ → ℤ × Store → Type 0
  Grants s e c u qty limit n (reply, s') =
      (stock_of s e c ≡ some n)
      × (held_of s e u +ℤ pos qty ≤ℤ pos limit)
      × (pos qty ≤ℤ n)
      × (reply ≡ n -ℤ pos qty)
      × (stock_of s' e c ≡ some (n -ℤ pos qty))
      × (held_of s' e u ≡ held_of s e u +ℤ pos qty)
      × Untouched s e c u s'

  abbrev pub Refuses : Store → ℕ → ℕ → ℕ → ℕ → ℕ → ℤ × Store → Type 0
  Refuses s e c u qty limit (reply, s') =
      (s' ≡ s)
      × ((reply ≡ negsuc 2) × (stock_of s e c ≡ none)
          ⊎ (reply ≡ negsuc 1) × (pos limit <ℤ held_of s e u +ℤ pos qty)
          ⊎ (reply ≡ negsuc 0) × ((n : ℤ) × (stock_of s e c ≡ some n) × (n <ℤ pos qty)))

  reserve-Grants :
      (s : Store) (e c u qty limit : ℕ) (n : ℤ)
      → stock_of s e c ≡ some n
      → held_of s e u +ℤ pos qty ≤ℤ pos limit
      → pos qty ≤ℤ n
      → Grants s e c u qty limit n (reserve R s (stock e c) (bought e u) qty limit)
  unfolding reserve
  reserve-Grants s e c u qty limit n hs hl hq = (
    hs,
    hl,
    hq,
    ground arith,
    grind (arith, slot-incrby, slot-decrby),
    grind (arith, slot-incrby, slot-decrby),
    λ j a b. grind (arith, slot-incrby, slot-decrby),
  )

  -- A call of reserve.lua either grants the tickets, when the stock is there and covers them and the
  -- account stays within the limit: then it answers the rest of the stock, takes the tickets from
  -- the stock, adds them to the account's count and touches no other key. Or it changes nothing and
  -- answers -3 for a missing stock, -2 for an exceeded limit or -1 for a stock that is short.
  pub reserve_result :
      (s : Store) (e c u qty limit : ℕ)
      → let result = reserve R s (stock e c) (bought e u) qty limit in
        ((n : ℤ) × Grants s e c u qty limit n result) ⊎ Refuses s e c u qty limit result
  unfolding reserve
  reserve_result s e c u qty limit = elim (Option-cases (stock_of s e c)) [
    | inl absent ↦ inr (ground arith, inl (ground arith, absent))
    | inr (n, present) ↦ elim (Bool-cases (ltb_ℤ (pos limit) (held_of s e u +ℤ pos qty))) [
      | inl over ↦ inr (ground arith, inr (inl (ground arith, ground arith)))
      | inr within ↦ elim (Bool-cases (ltb_ℤ n (pos qty))) [
        | inl short ↦ inr (ground arith, inr (inr (ground arith, (n, present, ground arith))))
        | inr enough ↦
            inl (n, reserve-Grants s e c u qty limit n present (ground arith) (ground arith))
      ]
    ]
  ]

  -- A call of release.lua gives the tickets back to the stock and answers the new stock; the
  -- account's count falls by as many, but not below 0, and no other key changes.
  pub release_result :
      (s : Store) (e c u qty : ℕ)
      → let (reply, s') = release R s (stock e c) (bought e u) qty in
        (reply ≡ or_zero (stock_of s e c) +ℤ pos qty)
        × (stock_of s' e c ≡ some reply)
        × (held_of s e u ≤ℤ pos qty → held_of s' e u ≡ pos 0)
        × (pos qty ≤ℤ held_of s e u → held_of s' e u ≡ held_of s e u -ℤ pos qty)
        × Untouched s e c u s'
  unfolding release
  release_result s e c u qty = (
    grind (arith, slot-incrby),
    grind (arith, slot-incrby, slot-set_number, slot-del),
    λ h. grind (arith, slot-incrby, slot-set_number, slot-del, -ℤ_parts, eq_of_parts),
    λ h. grind (arith, slot-incrby, slot-set_number, slot-del, -ℤ_parts, eq_of_parts),
    λ j a b. grind (arith, slot-incrby, slot-set_number, slot-del),
  )
