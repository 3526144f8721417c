-- ===== src/Shared/Eta/Examples.antt =====
-- Numbers in thousandths meet the laws that the estimate relies on, and its theorems at concrete
-- inputs.
use antretix.Common.{ℕ, ◌+◌, ◌*◌, ◌/◌, ◌≤◌, ◌<◌, ◌≡◌, refl, some, arith, ltb}
use native.Mathlib.Nat.{le-div_iff_mul-le, div-mul-le_self}
use antretix.Shared.Double.{Double}
use antretix.Shared.Eta.{estimate_wait}
use antretix.Shared.Eta.Bounds.{IsRange, NotShorter, estimate_wait_bounds}

pub div_mono : (a b r : ℕ) → 0 < r → a ≤ b → a / r ≤ b / r
div_mono a b r p h = (le-div_iff_mul-le p).1 (omega (arith, div-mul-le_self a r, h))

abbrev pub thousandths : Double
thousandths = record {
  Num = ℕ;
  AtMost = λ a b. a ≤ b;
  of_ℕ = λ n. n * 1000;
  tenths = λ k. k * 100;
  mul = λ a b. a * b / 1000;
  quot = λ a b. a * 1000 / b;
  is_positive = λ a. ltb 0 a;
  floor = λ a. a / 1000;
  ceil = λ a. (a + 999) / 1000;
  of_ℕ_mono = λ m n h. omega (arith, h);
  quot_mono = λ a b r p h. div_mono (a * 1000) (b * 1000) r (ground arith) (omega (arith, h));
  mul_mono = λ a b k h. div_mono (a * (k * 100)) (b * (k * 100)) 1000 (omega arith) (grind arith);
  tenths_mono =
      λ a j k h. div_mono (a * (j * 100)) (a * (k * 100)) 1000 (omega arith) (grind arith);
  floor_mono = λ a b h. omega (arith, h);
  ceil_mono = λ a b h. omega (arith, h);
  floor-le-ceil = λ a. omega arith;
}

estimate_wait-third :
    estimate_wait thousandths 30 2000 0 ≡ some (record { min_sec = 12; max_sec = 18 })
unfolding estimate_wait
estimate_wait-third = refl

estimate_wait_bounds_example :
    IsRange thousandths (estimate_wait thousandths 30 2000 0)
    × NotShorter thousandths
        (estimate_wait thousandths 30 2000 0)
        (estimate_wait thousandths 31 2000 0)
estimate_wait_bounds_example =
    estimate_wait_bounds thousandths 30 31 2000 0 (omega arith) (omega arith)
