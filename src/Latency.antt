-- ===== src/Latency.antt =====
-- The latency benchmark, benchmarks/clients/src/latency-sender.c and latency-receiver.c: the statistics
-- that both keep in the same way. The clients are child modules.
pub mod Sender
pub mod Receiver
mod Accounts
mod Pair
mod Exchange
mod Session
mod Examples
use dispatch_tester.Common.{
  ℕ, ◌+◌, ◌*◌, ◌/◌, if◌then◌else◌, ltb, ◌==◌, u64, sub64, Run, ok, halt, aborted,
}

-- The globals for the latencies, all unsigned.
pub record Stats : Type 0 where
  pub total : ℕ
  pub squares : ℕ
  pub longest : ℕ
  pub shortest : ℕ

unfoldable pub add_latency : ℕ → Stats → Stats
add_latency latency st = record {
  total = u64 (st.total + latency);
  squares = u64 (st.squares + u64 (latency * latency));
  longest = if ltb st.longest latency then latency else st.longest;
  shortest = if ltb latency st.shortest then latency else st.shortest;
}

abbrev pub no_latency : Stats
no_latency = record { total = 0; squares = 0; longest = 0; shortest = 18446744073709551615 }

-- The integers of a report over `count` messages: the mean, and the variance. A division by zero ends
-- the process.
unfoldable pub report : ℕ → Stats → Run (ℕ × ℕ)
report count st =
    let mean : ℕ = st.total / count in
    let variance : ℕ = sub64 (st.squares / count) (u64 (mean * mean)) in
    if count == 0 then halt aborted else ok (mean, variance)
