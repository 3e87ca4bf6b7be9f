-- ===== src/Benchmark/Examples.antt =====
-- Three messages from a benchmark sender to a benchmark receiver with a window of two.
use dispatch_tester.Common.{
  ℕ, ◌+◌, ◌≡◌, refl, true, false, some, pos, if◌then◌else◌, ltb, u64, count_if, [], result, ok,
  arith,
}
use dispatch_tester.Proton
use dispatch_tester.Proton.Message.{Message, Encoded, overflow, encoded, encode_loop}
use dispatch_tester.Sender.{
  Sender, FlowReads, AckReads, connection_init, message, open_endpoints, generate_message, on_init,
  event_handler,
}
use dispatch_tester.Sender.Main.{failure}
use dispatch_tester.Receiver
use dispatch_tester.Receiver.{Receiver, Delivery}
use dispatch_tester.Benchmark.{exchanges, benchmark_completes}

abbrev sender : Sender
sender = record {
  stop = false;
  limit = 3;
  count = 0;
  acked = 0;
  accepted = 0;
  not_accepted = 0;
  use_anonymous = false;
  presettle = false;
  add_timestamp = false;
  add_annotations = false;
  body_size = 100;
  encode_buffer = false;
  encode_buffer_size = 0;
  encoded_data_size = 0;
  target_address = "benchmark";
  host_address = "127.0.0.1:5672";
  container_name = "BenchSender";
  pn_ssn = false;
  pn_link = false;
  tag = 0;
  start_ts = 0;
  stop_ts = 0;
  ack_start_ts = 0;
  ack_stop_ts = 0;
  start_stall = record { tv_sec = 0; tv_nsec = 0 };
  stalled = false;
  worse_stall = 0;
  total_stall = 0;
  stall_count = 0;
  sum_of_squares = 0;
  credit_grants = 0;
  grant_count = 0;
  calls = [];
}

abbrev receiver : Receiver
receiver = record {
  stop = false;
  min_latency = pos 9223372036854775807;
  max_latency = pos 0;
  total_latency = pos 0;
  sum_of_squares = 0;
  start_ts = 0;
  latency_count = 0;
  credit_window = 2;
  check_latency = true;
  source_address = "benchmark";
  host_address = "127.0.0.1:5672";
  container_name = "BenchReceiver";
  pn_ssn = false;
  pn_link = false;
  in_message = false;
  count = 0;
  limit = 3;
  calls = [];
}

abbrev clock : ℕ → AckReads
clock i = record { ack_start = 40 + i; ack_stop = 41 + i }

-- An encoder that needs 700 octets for any message.
abbrev encode : Message → ℕ → Encoded
encode m size = if ltb size 700 then overflow else encoded 650

abbrev ready : Sender
ready = result sender (event_handler encode (connection_init 7) sender)

ready-eq-ok : event_handler encode (connection_init 7) sender ≡ ok ready
unfolding event_handler on_init generate_message open_endpoints encode_loop message
ready-eq-ok = refl

abbrev finds : ℕ → FlowReads
finds left = record {
  credit = 0;
  stall_end = record { tv_sec = 9; tv_nsec = 4000 };
  first_send = 10;
  stamp = λ t. t;
  last_send = 20 + left;
  stall_start = record { tv_sec = 5; tv_nsec = 0 };
}

abbrev arrives : ℕ → Delivery
arrives i = record {
  readable = true;
  partial = false;
  pending = 650;
  first = 5;
  recv = pos 650;
  sent_at = λ n. some (pos 1000);
  now = 1500 + i;
  credit = 0;
}

benchmark_completes_example :
    (t : Sender) × (r : Receiver) × (exchanges encode finds arrives clock 3
        (ready, Receiver.on_init receiver)
      ≡ ok (t, r))
    × (t.count ≡ 3)
    × (count_if Proton.is_delivery t.calls ≡ 3)
    × (count_if Proton.is_send t.calls ≡ 3)
    × (count_if Proton.is_advance t.calls ≡ 3)
    × (t.accepted ≡ 3)
    × (t.stop ≡ true)
    × (failure t ≡ false)
    × (r.count ≡ 3)
    × (u64 (count_if Proton.is_settle r.calls) ≡ 3)
    × (r.stop ≡ true)
benchmark_completes_example =
    benchmark_completes encode finds arrives clock 7 3 sender ready receiver
      (λ i. record { readable = refl; full = refl }) (omega arith) (omega arith) ground arith
      ready-eq-ok ground arith refl
