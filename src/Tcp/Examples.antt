-- ===== src/Tcp/Examples.antt =====
-- A transfer of a million octets, and rates in their units.
use dispatch_tester.Common.{
  true, false, ℕ, zero, suc, ◌*◌, ◌^◌, ◌≤◌, ◌<◌, ◌≡◌, ◌⊎◌, refl, List, [], ◌∷◌, ℤ, pos,
  if◌then◌else◌, ltb, arith,
}
use dispatch_tester.Proton.Clock.{Timespec, time}
use dispatch_tester.Tcp.{finished, humanize_rate, close, shutdown_rd, report, elapsed_msecs}
use dispatch_tester.Tcp.Spout.{send_loop, split_scale, connect_and_send}
use dispatch_tester.Tcp.Drain.{run}
use dispatch_tester.Tcp.Transfer.{IsSocket, IsStream, ArePositive, total, answers, transfer}
use dispatch_tester.Tcp.Units.{humanize_rate-cases}

-- A socket that takes at most 50000 octets.
abbrev send : ℕ → ℕ → ℤ
send k n = if ltb 50000 n then pos 50000 else pos n

send-IsSocket : IsSocket send
send-IsSocket k n h = (if ltb 50000 n then 50000 else n, ground arith, ground arith, ground arith)

-- A network that delivers one octet at a time.
abbrev singles : ℕ → List ℕ
singles zero = []
singles (suc n) = 1 ∷ singles n

singles-ArePositive : (n : ℕ) → ArePositive (singles n)
singles-ArePositive zero = tt
singles-ArePositive (suc n) = (omega arith, singles-ArePositive n)

total-singles : (n : ℕ) → total (singles n) ≡ n
total-singles zero = refl
total-singles (suc n) = omega (arith, total-singles n)

abbrev carry : List ℕ → List ℕ
carry ns = singles (total ns)

carry-IsStream : IsStream carry
carry-IsStream = record {
  positive = λ ns. singles-ArePositive (total ns);
  kept = λ ns. total-singles (total ns);
}

-- A time of the clock.
abbrev at : ℕ → Timespec
at msecs = record { tv_sec = 7; tv_nsec = msecs * 1000000 }

transfer_example :
    (ns : List ℕ) × (send_loop send 1000000 0 1000000 ≡ finished ns)
    × (connect_and_send send (pos 3) false (time (at 0)) (time (at 500)) 1000000 true
        ≡ (close ∷ shutdown_rd ∷ [], finished (report 1000000 (elapsed_msecs (at 0) (at 500)))))
    × (run
          (record { socket = 5; half_close = false })
          false
          (time (at 1))
          (answers (carry ns))
          (time (at 751))
        ≡ (close ∷ [], finished (report 1000000 (elapsed_msecs (at 1) (at 751)))))
transfer_example =
    transfer send carry 1000000 2 true (record { socket = 5; half_close = false }) (at 0) (at 500)
      (at 1) (at 751) send-IsSocket carry-IsStream omega arith

humanize_rate-cases_example :
    let (unit, r) = humanize_rate (record { numerator = pos 5000000; denominator = 2 }) in
    (r.numerator ≡ pos 5000000)
    × (((5000000 < 2 * 1024 ^ 5)
          × (r.denominator ≡ 2 * 1024 ^ unit)
          × (5000000 < 1024 * r.denominator)
          × ((unit ≡ 0) ⊎ (r.denominator ≤ 5000000)))
        ⊎ ((2 * 1024 ^ 5 ≤ 5000000) × (unit ≡ 4) × (r.denominator ≡ 2 * 1024 ^ 5)))
humanize_rate-cases_example = humanize_rate-cases 5000000 2

-- "12M" is twelve times 1048576.
scale_of_12M : split_scale (49 ∷ 50 ∷ 77 ∷ []) ≡ (1048576, 49 ∷ 50 ∷ [])
unfolding split_scale
scale_of_12M = refl
