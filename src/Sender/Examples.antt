-- ===== src/Sender/Examples.antt =====
-- Runs of the benchmark sender on concrete events: three messages, of which one is rejected, with one
-- credit stall.
use dispatch_tester.Common.{
  ℕ, ◌≡◌, refl, true, false, if◌then◌else◌, ltb, List, [], ◌∷◌, ok, result, Ends, some, ◌≤◌, ◌*◌,
  ◌<◌, arith,
}
use dispatch_tester.Proton.Message.{Message, Encoded, overflow, encoded, encode_loop}
use dispatch_tester.Proton.Message.Encode.{IsEncoder, encode_loop-total}
use dispatch_tester.Proton.Clock.{Timespec, diff_timespec_usec}
use dispatch_tester.Proton
use dispatch_tester.Sender.{
  Sender, FlowReads, AckReads, Event, connection_init, link_flow, delivery, message, count_stall,
  count_difference, end_stall, tally, on_delivery, open_endpoints, next_delivery, write_out,
  after_sending, before_sending, generate_message, on_init, encode_if, send_one, send_loop, on_flow,
  event_handler, run,
}
use dispatch_tester.Sender.Main.{stall_report}
use dispatch_tester.Sender.Stalls.{IsSound, IsLog, end_stall-IsLog, stall_report-exact}
use dispatch_tester.Sender.Accounting.{Inv, session-Inv}
use dispatch_tester.Sender.Total.{HasRoom, event_handler-total}

abbrev initial : Sender
initial = record {
  stop = false;
  limit = 3;
  count = 0;
  acked = 0;
  accepted = 0;
  not_accepted = 0;
  use_anonymous = false;
  presettle = false;
  add_timestamp = false;
  add_annotations = false;
  body_size = 100;
  encode_buffer = false;
  encode_buffer_size = 0;
  encoded_data_size = 0;
  target_address = "benchmark";
  host_address = "127.0.0.1:5672";
  container_name = "BenchSender";
  pn_ssn = false;
  pn_link = false;
  tag = 0;
  start_ts = 0;
  stop_ts = 0;
  ack_start_ts = 0;
  ack_stop_ts = 0;
  start_stall = record { tv_sec = 0; tv_nsec = 0 };
  stalled = false;
  worse_stall = 0;
  total_stall = 0;
  stall_count = 0;
  sum_of_squares = 0;
  credit_grants = 0;
  grant_count = 0;
  calls = [];
}

-- An encoder that needs 700 octets for any message.
abbrev encode : Message → ℕ → Encoded
encode m size = if ltb size 700 then overflow else encoded 650

abbrev needs : Message → ℕ
needs m = 700

encode-IsEncoder : (m : Message) → IsEncoder (needs m) (encode m)
encode-IsEncoder m = (record {
  enough = λ size h e. ground arith;
  within = λ size len e. ground arith;
})

abbrev grant : ℕ → ℕ → FlowReads
grant credit at = record {
  credit = credit;
  stall_end = record { tv_sec = at; tv_nsec = 4000 };
  first_send = 10;
  stamp = λ t. t;
  last_send = 20;
  stall_start = record { tv_sec = at; tv_nsec = 0 };
}

abbrev clock : ℕ → AckReads
clock now = record { ack_start = now; ack_stop = now }

abbrev events : List Event
events =
    link_flow (grant 2 5)
    ∷ delivery true Proton.accepted (clock 11)
    ∷ link_flow (grant 4 6)
    ∷ delivery true Proton.rejected (clock 12)
    ∷ delivery true Proton.accepted (clock 13)
    ∷ []

abbrev final : Sender
final = result initial (run encode (connection_init 1 ∷ events) initial)

runs : run encode (connection_init 1 ∷ events) initial ≡ ok final
unfolding run event_handler on_init on_flow send_loop send_one encode_if generate_message
    encode_loop message open_endpoints before_sending after_sending write_out next_delivery
    end_stall count_difference count_stall diff_timespec_usec on_delivery tally
runs = refl

session-Inv_example : Inv final
session-Inv_example =
    (session-Inv encode 1 events initial final (ground arith) (tt, (tt, (tt, (tt, (tt, tt))))) runs)

-- The figures at the end: a stall of 1000004 microseconds, and a stop after the third acknowledgement.
figures :
    (final.stop ≡ true)
    × (final.accepted ≡ 2)
    × (final.stall_count ≡ 1)
    × (final.total_stall ≡ 1000004)
unfolding run event_handler on_init on_flow send_loop send_one encode_if generate_message
    encode_loop message open_endpoints before_sending after_sending write_out next_delivery
    end_stall count_difference count_stall diff_timespec_usec on_delivery tally
figures = ((refl, refl, refl, refl))

abbrev ready : Sender
ready = record initial { encode_buffer = true; encode_buffer_size = 1224; encoded_data_size = 650 }

event_handler-total_example : Ends HasRoom (event_handler encode (link_flow (grant 2 5)) ready)
event_handler-total_example =
    (event_handler-total encode needs encode-IsEncoder (λ m. omega arith) (link_flow (grant 2 5))
      ready (ground arith))

encode_loop-total_example :
    Ends (λ (r : ℕ × ℕ). (0 < r.0) × (r.1 ≤ r.0)) (encode_loop (encode (message ready 0)) 64 612)
encode_loop-total_example =
    (encode_loop-total (encode-IsEncoder (message ready 0)) (omega arith) 612 (omega arith))

abbrev stalled_once : Sender
stalled_once = record initial {
  stalled = true;
  worse_stall = 30;
  total_stall = 40;
  stall_count = 2;
  sum_of_squares = 1000;
}

stalled_once-IsSound : IsSound stalled_once
stalled_once-IsSound = ground arith

abbrev later : Timespec
later = record { tv_sec = 0; tv_nsec = 50000 }

-- Stalls of 10 and 30 microseconds before, and one of 50 that ends.
stalled_once-IsLog : IsLog (10 ∷ 30 ∷ []) stalled_once
stalled_once-IsLog = ground arith

end_stall-IsLog_example :
    IsLog (50 ∷ 10 ∷ 30 ∷ []) (end_stall later stalled_once)
    × ((end_stall later stalled_once).stalled ≡ false)
unfolding diff_timespec_usec
end_stall-IsLog_example =
    end_stall-IsLog later (10 ∷ 30 ∷ []) stalled_once (omega arith, omega arith) stalled_once-IsLog

stall_report-exact_example : (20 * 20 ≤ 500) × (stall_report stalled_once ≡ some (20, 100))
stall_report-exact_example =
    (stall_report-exact stalled_once (omega arith) (omega arith) stalled_once-IsSound)
