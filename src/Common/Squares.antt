-- ===== src/Common/Squares.antt =====
-- Sums and sums of squares: what keeps an integer variance from being negative.
use Prim.Native.Nat.{ℕ, zero, suc, ◌+◌, ◌-◌, ◌*◌, ◌/◌, ◌≤◌, ◌<◌}
use mathlib.Core.Path.{◌≡◌}
use native.Mathlib.Decide.{dec_le}
use native.Mathlib.Nat.{le_of_mul-le-mul_left, le-div_iff_mul-le, mul-div-le, mul-le-mul}
use native.Mathlib.Omega.{arith}

square_gap : (a k : ℕ) → 2 * (a * (a + k)) ≤ a * a + (a + k) * (a + k)
square_gap a k = omega arith

two_mul-le-squares : (a b : ℕ) → 2 * (a * b) ≤ a * a + b * b
two_mul-le-squares a b = elim (dec_le a b) [
  | yes p ↦ (let e : a + (b - a) ≡ b = omega arith in (rw e at (square_gap a (b - a))))
  | no p ↦
      (let e : b + (a - b) ≡ a = omega arith in (omega (arith, rw e at (square_gap b (a - b)))))
]

cross :
    (n total squares d : ℕ)
    → total * total ≤ suc n * squares
    → 2 * (total * d) ≤ squares + suc n * (d * d)
cross n total squares d h =
    le_of_mul-le-mul_left {k = suc n} (omega (arith, two_mul-le-squares total (suc n * d))) omega
      arith

-- The sum of `n` values, squared, is at most `n` times the sum of their squares: one more value.
pub squares_step :
    (n total squares d : ℕ)
    → total * total ≤ n * squares
    → (total + d) * (total + d) ≤ (n + 1) * (squares + d * d)
squares_step zero zero squares d h = omega arith
squares_step zero (suc total) squares d h = (absurd (omega arith))
squares_step (suc n) total squares d h = (omega (arith, cross n total squares d h))

-- So the mean of the squares is at least the square of the mean.
pub mean_square :
    (n total squares : ℕ)
    → 0 < n
    → total * total ≤ n * squares
    → (total / n) * (total / n) ≤ squares / n
mean_square n total squares positive h = (le-div_iff_mul-le positive).1 (
    le_of_mul-le-mul_left {k = n}
      (omega (arith, h, mul-le-mul (mul-div-le total n) (mul-div-le total n))) positive)
