-- ===== src/Lua/Stock.antt =====
-- packages/lua/scripts/reserve.lua and release.lua: the first layer against overselling.
pub mod Exact
pub mod Sales
pub mod Examples
use antretix.Common.{ℕ, ◌<◌, ◌≡◌, Option, none, some, if◌then◌else◌}
use antretix.Common.Int.{ℤ, pos, negsuc, ◌+ℤ◌, ◌-ℤ◌, ltb_ℤ, leb_ℤ}
use antretix.Shared.Keys.{Key}
use antretix.Redis.{Redis, or_zero}

module _ (R : Redis) where
  open R use {Store, slot, incrby, decrby, set_number, del}

  -- `stock` is the number that GET found; the reply is the stock left, -1 or -2.
  reserve_from : Store → Key → Key → ℕ → ℕ → ℤ → ℤ × Store
  reserve_from s stock_key bought_key qty max_per_user stock =
      let held = or_zero (slot s bought_key).counter in
      if ltb_ℤ (pos max_per_user) (held +ℤ pos qty)
      then (negsuc 1, s)
      else if ltb_ℤ stock (pos qty)
      then (negsuc 0, s)
      else (stock -ℤ pos qty, incrby (decrby s stock_key (pos qty)) bought_key (pos qty))

  -- reserve.lua; -3 says that the stock key is not there.
  unfoldable pub reserve : Store → Key → Key → ℕ → ℕ → ℤ × Store
  unfolding reserve_from
  reserve s stock_key bought_key qty max_per_user = elim (slot s stock_key).counter [
    | none ↦ (negsuc 2, s)
    | some stock ↦ reserve_from s stock_key bought_key qty max_per_user stock
  ]

  -- What release.lua does with the account's count of tickets.
  give_back : Store → Key → ℕ → Store
  give_back s bought_key qty =
      let next = or_zero (slot s bought_key).counter -ℤ pos qty in
      if leb_ℤ next (pos 0) then del s bought_key else set_number s bought_key next

  -- release.lua; the reply is the stock after INCRBY.
  unfoldable pub release : Store → Key → Key → ℕ → ℤ × Store
  unfolding give_back
  release s stock_key bought_key qty =
      let s' = incrby s stock_key (pos qty) in
      (or_zero (slot s' stock_key).counter, give_back s' bought_key qty)
