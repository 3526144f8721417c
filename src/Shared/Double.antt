-- ===== src/Shared/Double.antt =====
-- The floating-point numbers of JavaScript: what the estimate of a wait uses of them. The laws are
-- those of IEEE 754 for numbers that are finite and not negative: rounding never reverses an order.
use antretix.Common.{ℕ, ◌≤◌, ◌≡◌, Bool, true}

pub record Double : Type 1 where
  pub Num : Type 0
  pub AtMost : Num → Num → Type 0
  pub of_ℕ : ℕ → Num
  pub tenths : ℕ → Num  -- the literals 0.8 and 1.2
  pub mul : Num → Num → Num
  pub quot : Num → Num → Num
  pub is_positive : Num → Bool
  pub floor : Num → ℕ
  pub ceil : Num → ℕ
  pub of_ℕ_mono : (m n : ℕ) → m ≤ n → AtMost (of_ℕ m) (of_ℕ n)
  pub quot_mono : (a b r : Num) → is_positive r ≡ true → AtMost a b → AtMost (quot a r) (quot b r)
  pub mul_mono : (a b : Num) (k : ℕ) → AtMost a b → AtMost (mul a (tenths k)) (mul b (tenths k))
  pub tenths_mono : (a : Num) (j k : ℕ) → j ≤ k → AtMost (mul a (tenths j)) (mul a (tenths k))
  pub floor_mono : (a b : Num) → AtMost a b → floor a ≤ floor b
  pub ceil_mono : (a b : Num) → AtMost a b → ceil a ≤ ceil b
  pub floor-le-ceil : (a : Num) → floor a ≤ ceil a
