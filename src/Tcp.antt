-- ===== src/Tcp.antt =====
-- skupper-router/clients/spout-client.c and drain-server.c: one sends octets over a TCP connection as fast
-- as it can, the other takes them. Both report the rate, with the same two functions.
pub mod Spout
pub mod Drain
mod Units
mod Transfer
mod Examples
use dispatch_tester.Common.{
  Bool, List, [], ◌∷◌, ℕ, zero, suc, ◌+◌, ◌-◌, ◌*◌, ◌/◌, ◌==◌, if◌then◌else◌, ltb, ℤ, pos, negsuc,
  sub_ℕ, lt_ℤ,
}
use dispatch_tester.Proton.Clock.{Timespec}

-- How a transfer ends: with a result, with an error, or not at all.
pub data Outcome {ℓ} (A : Type ℓ) : Type ℓ where
  finished : A → Outcome A
  failed blocked : Outcome A

-- The calls on a socket that end it, or one direction of it.
pub data SocketCall : Type 0 where
  shutdown_rd shutdown_wr close : SocketCall

-- `if (half_close) shutdown(…)`, before a transfer.
abbrev pub shut_first : Bool → SocketCall → List SocketCall
shut_first half_close call = if half_close then call ∷ [] else []

abbrev pub buffer_size : ℕ
buffer_size = 131072

-- The milliseconds between two readings of the clock.
unfoldable pub elapsed_msecs : Timespec → Timespec → ℤ
elapsed_msecs start end =
    sub_ℕ (end.tv_sec * 1000 + end.tv_nsec / 1000000)
      (start.tv_sec * 1000 + start.tv_nsec / 1000000)

-- A rate in octets a second is a fraction; the rounding of `long double` is left out.
pub record Rate : Type 0 where
  pub numerator : ℤ
  pub denominator : ℕ

-- `secs != 0.0L ? amount / secs : 0.0L`, where `secs` is `msecs / 1000.0L`.
unfoldable pub rate_of : ℕ → ℤ → Rate
rate_of amount (pos zero) = record { numerator = pos 0; denominator = 1 }
rate_of amount (pos (suc n)) = record { numerator = pos (amount * 1000); denominator = suc n }
rate_of amount (negsuc n) = record { numerator = sub_ℕ 0 (amount * 1000); denominator = suc n }

-- The loop of `humanize_rate`, from unit `unit` on: the unit, and the rate in it. The units are octets
-- and the powers of 1024 up to the fourth.
unfoldable pub scale_rate : ℕ → ℕ → Rate → ℕ × Rate
scale_rate zero unit r = (4, r)
scale_rate (suc k) unit r =
    let rest : ℕ × Rate =
      scale_rate k (suc unit)
        (record { numerator = r.numerator; denominator = r.denominator * 1024 }) in
    if lt_ℤ r.numerator (pos (1024 * r.denominator)) then (unit, r) else rest

unfoldable pub humanize_rate : Rate → ℕ × Rate
unfolding scale_rate
humanize_rate = scale_rate 5 0

-- What is reported: the octets, the milliseconds, and the rate in its unit.
pub record Report : Type 0 where
  pub octets : ℕ
  pub msecs : ℤ
  pub unit : ℕ
  pub rate : Rate

unfoldable pub report : ℕ → ℤ → Report
report octets msecs =
    let (unit, rate) = humanize_rate (rate_of octets msecs) in
    record { octets = octets; msecs = msecs; unit = unit; rate = rate }
