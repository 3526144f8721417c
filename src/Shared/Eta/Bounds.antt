-- ===== src/Shared/Eta/Bounds.antt =====
-- The estimate is a range, it grows with the position, and it is shown as a range of minutes.
use antretix.Common.{ℕ, ◌*◌, ◌≤◌, ◌<◌, ◌≡◌, inl, inr, true, Option, none, some, arith, Bool-cases}
use antretix.Shared.Double.{Double}
use antretix.Shared.Eta.{EtaRange, about_minutes, format_eta, rate_of, estimate_wait}

module _ (D : Double) where
  open D use {
    Num, of_ℕ, tenths, is_positive, floor, ceil, of_ℕ_mono, quot_mono, mul_mono, tenths_mono,
    floor_mono, ceil_mono, floor-le-ceil, mul, quot,
  }

  -- The second estimate is at least the first.
  abbrev pub NotShorter : Option EtaRange → Option EtaRange → Type 0
  NotShorter none none = Unit
  NotShorter (some a) (some b) = (a.min_sec ≤ b.min_sec) × (a.max_sec ≤ b.max_sec)
  NotShorter _ _ = ⊥

  abbrev pub IsRange : Option EtaRange → Type 0
  IsRange none = Unit
  IsRange (some a) = a.min_sec ≤ a.max_sec

  estimate_wait-IsRange :
      (position : ℕ) (observed fallback : Num)
      → IsRange (estimate_wait D position observed fallback)
  unfolding estimate_wait
  estimate_wait-IsRange position observed fallback =
      let rate = rate_of D observed fallback in
      let seconds = quot (of_ℕ position) rate in
      let low = floor-le-ceil (mul seconds (tenths 8)) in
      let high = ceil_mono _ _ (tenths_mono seconds 8 12 (omega arith)) in ground arith

  longer_wait :
      (p q : ℕ) (rate : Num)
      → p ≤ q
      → is_positive rate ≡ true
      → (floor (mul (quot (of_ℕ p) rate) (tenths 8)) ≤ floor (mul (quot (of_ℕ q) rate) (tenths 8)))
        × (ceil (mul (quot (of_ℕ p) rate) (tenths 12))
            ≤ ceil (mul (quot (of_ℕ q) rate) (tenths 12)))
  longer_wait p q rate h r =
      let more = quot_mono _ _ rate r (of_ℕ_mono p q h) in
      (floor_mono _ _ (mul_mono _ _ 8 more), ceil_mono _ _ (mul_mono _ _ 12 more))

  -- For a place in the queue the estimate is a range whose lower end is not above the upper one, and
  -- at the same rates somebody further back gets no estimate when the one in front gets none, and
  -- else one that is not shorter at either end.
  pub estimate_wait_bounds :
      (p q : ℕ) (observed fallback : Num)
      → 1 ≤ p
      → p ≤ q
      → IsRange (estimate_wait D p observed fallback)
        × NotShorter (estimate_wait D p observed fallback) (estimate_wait D q observed fallback)
  unfolding estimate_wait
  estimate_wait_bounds p q observed fallback some_place h =
      let in_range = estimate_wait-IsRange p observed fallback in
      elim (Bool-cases (is_positive (rate_of D observed fallback))) [
        | inl moving ↦
            let more = longer_wait p q (rate_of D observed fallback) h moving in
            (in_range, ground arith)
        | inr still ↦ (in_range, ground arith)
      ]

-- When a range is shown in minutes, its upper end is at least a minute away, the first number is at
-- least 1 and below the second, and the second one covers the upper end.
pub format_range_bounds :
    (eta : EtaRange) (low high : ℕ)
    → format_eta (some eta) ≡ about_minutes low high
    → (60 ≤ eta.max_sec) × (1 ≤ low) × (low < high) × (eta.max_sec ≤ 60 * high)
unfolding format_eta
format_range_bounds eta low high h = ground arith
