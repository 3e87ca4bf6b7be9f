-- ===== src/Receiver/Latency.antt =====
-- The latency statistics of the benchmark receiver.
use native.Mathlib.Nat.{mul-le-mul, le_trans}
use dispatch_tester.Receiver.Main.{div_ℤ, latency_report}
use dispatch_tester.Common.{
  ◌/◌, ℕ, suc, ◌+◌, ◌-◌, ◌*◌, ◌≤◌, ◌<◌, ◌≡◌, ◌⊎◌, inl, inr, Option, some, none, ℤ, pos, negsuc,
  pos_part, neg_part, square, ◌+ℤ◌, ◌≤ℤ◌, ◌-ℤ◌, Option-cases, arith,
}
use dispatch_tester.Common.Squares.{squares_step, mean_square}
use dispatch_tester.Receiver.{
  Receiver, Delivery, max_size, add_latency, decoded_length, decode, measure,
}

-- The shortest latency is at most the longest, and the squares dominate the sum.
pub record IsSound (s : Receiver) : Type 0 where
  pub ordered : (s.latency_count ≡ 0) ⊎ (s.min_latency ≤ℤ s.max_latency)
  pub spread : square s.total_latency ≤ s.latency_count * s.sum_of_squares

abs : ℤ → ℕ
abs a = pos_part a + neg_part a

abs_add : (a b : ℤ) → abs (a +ℤ b) ≤ abs a + abs b
unfolding abs
abs_add a b = ground arith

square_add :
    (total x : ℤ) (n squares : ℕ)
    → square total ≤ n * squares
    → square (total +ℤ x) ≤ (n + 1) * (squares + square x)
unfolding abs
square_add total x n squares h =
    le_trans (mul-le-mul (abs_add total x) (abs_add total x))
      (squares_step n (abs total) squares (abs x) h)

add_ordered :
    (x : ℤ) (s : Receiver) → (add_latency x s).min_latency ≤ℤ (add_latency x s).max_latency
unfolding add_latency
add_ordered x s = ground arith

-- A further latency keeps the statistics sound; once there is one, the bounds are in order.
pub add_latency-IsSound : (x : ℤ) (s : Receiver) → IsSound s → IsSound (add_latency x s)
unfolding add_latency
add_latency-IsSound x s v = record {
  ordered = inr (add_ordered x s);
  spread = square_add s.total_latency x s.latency_count s.sum_of_squares v.spread;
}

decode-IsSound : (d : Delivery) (o : Option ℤ) (s : Receiver) → IsSound s → IsSound (decode d o s)
unfolding decode
decode-IsSound d none s v = v
decode-IsSound d (some ts) s v = add_latency-IsSound (pos d.now -ℤ ts) s v

-- Measuring a delivery keeps sound latency statistics sound.
pub measure-IsSound : (d : Delivery) (s : Receiver) → IsSound s → IsSound (measure d s)
unfolding measure
measure-IsSound d s v = elim (Option-cases (decoded_length d)) [
  | inl e ↦ rw (e, measure) v
  | inr (len, e) ↦ rw (e, measure) (decode-IsSound d (d.sent_at len) s v)
]

square-div_ℤ : (a : ℤ) (n : ℕ) → square (div_ℤ a n) ≡ (abs a / n) * (abs a / n)
unfolding abs
square-div_ℤ (pos a) n = ground arith
square-div_ℤ (negsuc a) n = ground arith

-- From sound statistics with at least one latency, the variance that is reported is not negative:
-- it is the mean of the squares less the square of the mean, by a subtraction that does not stop
-- at zero.
pub latency_report-exact :
    (s : Receiver)
    → 0 < s.latency_count
    → IsSound s
    → latency_report s
      ≡ some (
        div_ℤ s.total_latency s.latency_count,
        pos (s.sum_of_squares / s.latency_count - square (div_ℤ s.total_latency s.latency_count)),
      )
unfolding latency_report abs
latency_report-exact s some_latency v =
    let below =
      mean_square s.latency_count (abs s.total_latency) s.sum_of_squares some_latency v.spread in
    let same = square-div_ℤ s.total_latency s.latency_count in (ground (arith, below, same))

-- A read that fails with a code above -1000001, on a delivery below the size limit, makes the
-- decoder read beyond the buffer.
decoded_length_overrun :
    (d : Delivery) (n : ℕ)
    → d.recv ≡ negsuc n
    → n < 1000000
    → d.pending < max_size
    → (len : ℕ) × (decoded_length d ≡ some len) × (max_size < len)
unfolding decoded_length
decoded_length_overrun d n e h p = (18446744073709551616 - suc n, ground arith, omega arith)
