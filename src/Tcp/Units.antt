-- ===== src/Tcp/Units.antt =====
-- What `humanize_rate` means, and the milliseconds that the rate is taken over.
use dispatch_tester.Common.{ap, ℕ, ◌+◌, ◌*◌, ◌^◌, ◌≤◌, ◌<◌, ◌≡◌, ◌⊎◌, inl, inr, pos, arith}
use native.Mathlib.Decide.{dec_lt}
use dispatch_tester.Proton.Clock.{Timespec, nsecs}
use dispatch_tester.Tcp.{Rate, elapsed_msecs, humanize_rate}

-- The milliseconds are the elapsed time to within one of them.
pub elapsed_msecs_bounds :
    (start end : Timespec) (d : ℕ)
    → elapsed_msecs start end ≡ pos d
    → (d * 1000000 + nsecs start < nsecs end + 1000000)
      × (nsecs end < d * 1000000 + nsecs start + 1000000)
unfolding elapsed_msecs
elapsed_msecs_bounds start end d e = ground arith

abbrev fraction : ℕ → ℕ → Rate
fraction n d = record { numerator = pos n; denominator = d }

-- Below 1024 of the largest unit the denominator is scaled to the unit that is reported.
pub humanize_rate_unit :
    (n d : ℕ)
    → n < d * 1024 ^ 5
    → let (unit, r) = humanize_rate (record { numerator = pos n; denominator = d }) in
      (r.numerator ≡ pos n)
      × (r.denominator ≡ d * 1024 ^ unit)
      × (n < 1024 * r.denominator)
      × ((unit ≡ 0) ⊎ (r.denominator ≤ n))
unfolding humanize_rate
humanize_rate_unit n d h = ground arith

-- Beyond that the rate is divided once more than the unit says.
pub humanize_rate_beyond :
    (n d : ℕ)
    → d * 1024 ^ 5 ≤ n
    → humanize_rate (record { numerator = pos n; denominator = d })
      ≡ (4, record { numerator = pos n; denominator = d * 1024 ^ 5 })
unfolding humanize_rate
humanize_rate_beyond n d h = ground arith

-- For a rate that is not negative, `humanize_rate` keeps the numerator; below 1024 of the largest
-- unit it divides by the power of 1024 that its unit stands for, the result is below 1024 and not
-- below 1 except in octets; beyond that it names the largest unit, the fourth power, but divides
-- by the fifth.
pub humanize_rate-cases :
    (n d : ℕ)
    → let (unit, r) = humanize_rate (record { numerator = pos n; denominator = d }) in
      (r.numerator ≡ pos n)
      × (((n < d * 1024 ^ 5)
            × (r.denominator ≡ d * 1024 ^ unit)
            × (n < 1024 * r.denominator)
            × ((unit ≡ 0) ⊎ (r.denominator ≤ n)))
          ⊎ ((d * 1024 ^ 5 ≤ n) × (unit ≡ 4) × (r.denominator ≡ d * 1024 ^ 5)))
humanize_rate-cases n d = elim (dec_lt n (d * 1024 ^ 5)) [
  | yes p ↦
      let (same, unit, below, above) = humanize_rate_unit n d p in
      (same, inl (p, unit, below, above))
  | no p ↦
      let all = humanize_rate_beyond n d (omega arith) in
      (
        ap (λ (x : ℕ × Rate). x.1.numerator) all,
        inr (
          omega arith,
          ap (λ (x : ℕ × Rate). x.0) all,
          ap (λ (x : ℕ × Rate). x.1.denominator) all,
        ),
      )
]
