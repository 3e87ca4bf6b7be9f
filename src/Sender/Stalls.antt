-- ===== src/Sender/Stalls.antt =====
-- The stall statistics of the benchmark sender.
use dispatch_tester.Common.{
  zero, suc, ℤ, negsuc, List, [], ◌∷◌, length, sum_of, All, if◌then◌else◌, ltb, false, Bool-cases,
  inl, inr, ℕ, ◌-◌, ◌*◌, ◌/◌, ◌≤◌, ◌<◌, ◌^◌, ◌≡◌, some, pos, arith,
}
use native.Mathlib.Nat.{div-le_self}
use dispatch_tester.Common.Squares.{squares_step, mean_square}
use dispatch_tester.Proton.Clock.{Timespec, diff_timespec_usec}
use dispatch_tester.Sender.{Sender, count_stall, count_difference, end_stall}
use dispatch_tester.Sender.Main.{stall_report}

-- What the sums of a list of positive values satisfy: each value is at least one, and the squares
-- dominate.
pub record IsSound (s : Sender) : Type 0 where
  pub worst : s.worse_stall ≤ s.total_stall
  pub counted : s.stall_count ≤ s.total_stall
  pub spread : s.total_stall * s.total_stall ≤ s.stall_count * s.sum_of_squares

-- The squares and the greatest of the lengths of the stalls.
abbrev squared : ℕ → ℕ
squared d = d * d

abbrev same : ℕ → ℕ
same d = d

abbrev pub greatest : List ℕ → ℕ
greatest [] = 0
greatest (d ∷ ds) = if ltb (greatest ds) d then d else greatest ds

-- The statistics are those of the stalls of these lengths, in microseconds, newest first.
pub record IsLog (ds : List ℕ) (s : Sender) : Type 0 where
  pub counted : s.stall_count ≡ length ds
  pub total : s.total_stall ≡ sum_of same ds
  pub squares : s.sum_of_squares ≡ sum_of squared ds
  pub worst : s.worse_stall ≡ greatest ds

-- Their sums fit their words.
abbrev pub Fits : List ℕ → Type 0
Fits ds = (sum_of same ds < 2 ^ 64) × (sum_of squared ds < 2 ^ 64)

-- A difference that is positive is the length of one more stall.
abbrev pub logged : ℤ → List ℕ → List ℕ
logged (pos (suc d)) ds = suc d ∷ ds
logged _ ds = ds

count_difference-IsLog :
    (d : ℤ) (ds : List ℕ) (s : Sender)
    → Fits (logged d ds)
    → IsLog ds s
    → IsLog (logged d ds) (count_difference d s)
unfolding count_difference count_stall
count_difference-IsLog (pos zero) ds s h v = ground arith
count_difference-IsLog (pos (suc d)) ds s h v = (ground (arith, h.0, h.1))
count_difference-IsLog (negsuc d) ds s h v = v

-- If the statistics are the number, the sum, the sum of squares and the greatest of the lengths of
-- the stalls so far, and the sums with the stall that ends fit their words, the end of a stall
-- makes them those of the stalls with one more, whose length is the time since it began, if that
-- is positive, and no stall is left; without a stall they stay.
pub end_stall-IsLog :
    (end : Timespec) (ds : List ℕ) (s : Sender)
    → let all = if s.stalled then logged (diff_timespec_usec s.start_stall end) ds else ds in
      Fits all → IsLog ds s → IsLog all (end_stall end s) × ((end_stall end s).stalled ≡ false)
unfolding end_stall
end_stall-IsLog end ds s h v = elim (Bool-cases s.stalled) [
  | inl stalled ↦
      (ground (
        arith,
        h,
        count_difference-IsLog (diff_timespec_usec s.start_stall end) ds s (rw stalled at h) v,
      ))
  | inr free ↦ ground arith
]

-- The statistics of stalls of positive lengths are sound.
pub IsLog-IsSound : (ds : List ℕ) (s : Sender) → All (λ d. 0 < d) ds → IsLog ds s → IsSound s
IsLog-IsSound ds s positive v =
    let (worst, counted, spread) = sums ds positive in
    record {
      worst = omega (arith, v.worst, v.total, worst);
      counted = omega (arith, v.counted, v.total, counted);
      spread = (rw (v.total, v.counted, v.squares) spread);
    }
  where
    sums :
        (ds : List ℕ)
        → All (λ d. 0 < d) ds
        → (greatest ds ≤ sum_of same ds)
          × (length ds ≤ sum_of same ds)
          × (sum_of same ds * sum_of same ds ≤ length ds * sum_of squared ds)
    sums [] p = (omega arith, omega arith, omega arith)
    sums (d ∷ ds) p =
        let (worst, counted, spread) = sums ds p.1 in
        (
          (ground (arith, worst)),
          (omega (arith, p.0, counted)),
          (omega (arith, squares_step (length ds) (sum_of same ds) (sum_of squared ds) d spread)),
        )

-- From sound statistics with at least one stall and a sum of squares that fits its word, the
-- square of the mean is at most the mean of the squares, and the variance that is reported is
-- their difference, with no wrap-around.
pub stall_report-exact :
    (s : Sender)
    → 0 < s.stall_count
    → s.sum_of_squares < 2 ^ 64
    → IsSound s
    → let mean = s.total_stall / s.stall_count in
      let squares = s.sum_of_squares / s.stall_count in
      (mean * mean ≤ squares) × (stall_report s ≡ some (mean, squares - mean * mean))
unfolding stall_report
stall_report-exact s some_stall fits v =
    let below = mean_square s.stall_count s.total_stall s.sum_of_squares some_stall v.spread in
    (below, (ground (arith, below, div-le_self s.sum_of_squares s.stall_count)))
