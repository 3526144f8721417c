-- ===== src/Shared/Eta.antt =====
-- packages/shared/src/eta.ts: the estimate of a wait, in floating-point numbers.
pub mod Bounds
pub mod Examples
use antretix.Common.{
  ℕ, ◌+◌, ◌/◌, Bool, Option, none, some, List, ltb, ◌==◌, if◌then◌else◌, max, sum,
}
use antretix.Shared.Double.{Double}

pub record EtaRange : Type 0 where
  pub min_sec : ℕ
  pub max_sec : ℕ

-- The text that is shown.
pub data EtaText : Type 0 where
  waiting_to_move under_a_minute : EtaText
  about_minutes : ℕ → ℕ → EtaText

abbrev ceil_div_60 : ℕ → ℕ
ceil_div_60 n = (n + 59) / 60

abbrev pub format_range : EtaRange → EtaText
format_range eta =
    if ltb eta.max_sec 60
    then under_a_minute
    else let min_minutes = max 1 (eta.min_sec / 60) in
      about_minutes min_minutes (max (min_minutes + 1) (ceil_div_60 eta.max_sec))

unfoldable pub format_eta : Option EtaRange → EtaText
format_eta none = waiting_to_move
format_eta (some eta) = format_range eta

module _ (D : Double) where
  open D use {Num, of_ℕ, tenths, is_positive, floor, ceil, mul, quot}

  abbrev pub rate_of : Num → Num → Num
  rate_of observed fallback = if is_positive observed then observed else fallback

  -- A position is never below 0.
  unfoldable pub estimate_wait : ℕ → Num → Num → Option EtaRange
  estimate_wait position observed fallback =
      let rate = rate_of observed fallback in
      let seconds = quot (of_ℕ position) rate in
      if position == 0
      then some (record { min_sec = 0; max_sec = 0 })
      else if is_positive rate
      then some (record {
        min_sec = floor (mul seconds (tenths 8));
        max_sec = ceil (mul seconds (tenths 12));
      })
      else none

  unfoldable pub observed_throughput : List ℕ → ℕ → Num
  observed_throughput counts window =
      if window == 0 then of_ℕ 0 else quot (of_ℕ (sum counts)) (of_ℕ window)
