-- ===== src/Common/Spread.antt =====
-- The sum of a weight over the first values of a function, and how it changes with one of them.
use Prim.Native.Nat.{ℕ, zero, suc, ◌+◌, ◌≤◌, ◌<◌}
use mathlib.Core.Path.{◌≡◌}
use native.Mathlib.Omega.{arith}
use dispatch_tester.Common.Lists.{store}

module _ {ℓ} {A : Type ℓ} (w : A → ℕ) where
  abbrev pub spread : (ℕ → A) → ℕ → ℕ
  spread f zero = 0
  spread f (suc n) = w (f n) + spread f n

  -- A value beyond the first `n` does not count.
  spread-store_beyond : (f : ℕ → A) (v : A) (k n : ℕ) → n ≤ k → spread (store f k v) n ≡ spread f n
  spread-store_beyond f v k zero h = omega arith
  spread-store_beyond f v k (suc n) h = (ground (arith, spread-store_beyond f v k n))

  pub spread-store :
      (f : ℕ → A) (v : A) (k n : ℕ) → k < n → spread (store f k v) n + w (f k) ≡ spread f n + w v
  spread-store f v k zero h = absurd (omega arith)
  spread-store f v k (suc n) h = (ground (arith, spread-store f v k n, spread-store_beyond f v k n))
