-- ===== src/Receiver/Examples.antt =====
-- A run of the benchmark receiver: three messages with time stamps, in a window of two.
use dispatch_tester.Common.{ℕ, ◌≡◌, refl, true, false, some, List, [], ◌∷◌, pos, negsuc, arith}
use dispatch_tester.Proton.Credit.{replenish}
use dispatch_tester.Receiver.{
  Receiver, Delivery, Event, connection_init, delivery, add_latency, decoded_length, decode,
  measure, count_message, complete, on_message, on_delivery, on_init, event_handler, run,
}
use dispatch_tester.Receiver.Window.{Inv, reception-Inv}
use dispatch_tester.Common.{inr, ◌-◌}
use dispatch_tester.Receiver.Main.{latency_report}
use dispatch_tester.Receiver.Latency.{latency_report-exact, IsSound}

abbrev initial : Receiver
initial = record {
  stop = false;
  min_latency = pos 9223372036854775807;
  max_latency = pos 0;
  total_latency = pos 0;
  sum_of_squares = 0;
  start_ts = 0;
  latency_count = 0;
  credit_window = 2;
  check_latency = true;
  source_address = "benchmark";
  host_address = "127.0.0.1:5672";
  container_name = "BenchReceiver";
  pn_ssn = false;
  pn_link = false;
  in_message = false;
  count = 0;
  limit = 3;
  calls = [];
}

abbrev arrives : ℕ → ℕ → Delivery
arrives credit now = record {
  readable = true;
  partial = false;
  pending = 650;
  first = 5;
  recv = pos 650;
  sent_at = λ n. some (pos 1000);
  now = now;
  credit = credit;
}

abbrev events : List Event
events = delivery (arrives 1 1500) ∷ delivery (arrives 1 900) ∷ delivery (arrives 1 1100) ∷ []

reception-Inv_example : Inv (run (connection_init ∷ events) initial)
reception-Inv_example =
    unfold event_handler on_init on_delivery on_message count_message complete measure decode
      decoded_length add_latency replenish in
    (reception-Inv events initial (ground arith) (ground arith))

initial-IsSound : IsSound initial
initial-IsSound = ground arith

abbrev refused : Delivery
refused = record (arrives 1 900) { recv = negsuc 0 }

overrun : decoded_length refused ≡ some 18446744073709551615
unfolding decoded_length
overrun = refl

abbrev measured : Receiver
measured = record initial {
  min_latency = negsuc 99;
  max_latency = pos 500;
  total_latency = pos 400;
  sum_of_squares = 260000;
  latency_count = 2;
}

measured-IsSound : IsSound measured
measured-IsSound = (record { ordered = inr (omega arith); spread = omega arith })

latency_report-exact_example : latency_report measured ≡ some (pos 200, pos (130000 - 40000))
latency_report-exact_example = (latency_report-exact measured (omega arith) measured-IsSound)
