-- ===== src/Proton/Clock.antt =====
-- The clocks of the benchmark clients: benchmarks/clients/src/sender.c.
use dispatch_tester.Common.{
  ℕ, ◌+◌, ◌-◌, ◌*◌, ◌/◌, ◌<◌, ◌≡◌, ℤ, pos, sub_ℕ, Run, ok, halt, exit_code, arith,
}

pub record Timespec : Type 0 where
  pub tv_sec : ℕ
  pub tv_nsec : ℕ

-- What `clock_gettime` returns: a time, or a failure that leaves `errno`.
pub data Reading : Type 0 where
  time : Timespec → Reading
  errno : ℕ → Reading

abbrev pub usecs_per_second : ℕ
usecs_per_second = 1000000

unfoldable pub now_usec : Reading → Run ℕ
now_usec (time ts) = ok (usecs_per_second * ts.tv_sec + ts.tv_nsec / 1000)
now_usec (errno n) = halt (exit_code n)

-- The division of C cuts towards zero, so both signs of `nsec + 500` are written out.
unfoldable pub diff_timespec_usec : Timespec → Timespec → ℤ
diff_timespec_usec start end =
    sub_ℕ (end.tv_sec * usecs_per_second + (end.tv_nsec + 500 - start.tv_nsec) / 1000)
      (start.tv_sec * usecs_per_second + (start.tv_nsec - (end.tv_nsec + 500)) / 1000)

abbrev pub nsecs : Timespec → ℕ
nsecs t = t.tv_sec * 1000000000 + t.tv_nsec

-- A difference that is not negative is the elapsed time to within rounding: less than 1500
-- nanoseconds above it and less than 500 below it.
pub diff_timespec_usec_bounds :
    (start end : Timespec) (d : ℕ)
    → diff_timespec_usec start end ≡ pos d
    → (d * 1000 + nsecs start < nsecs end + 1500) × (nsecs end < d * 1000 + nsecs start + 500)
unfolding diff_timespec_usec
diff_timespec_usec_bounds start end d e = ground arith
