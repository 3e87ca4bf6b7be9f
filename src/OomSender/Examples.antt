-- ===== src/OomSender/Examples.antt =====
-- Flows of the OOM sender: in the middle of a message, and with neither a delivery nor credit.
use dispatch_tester.Common.{
  store, String, Ends, Bool, true, List, if◌then◌else◌, ℕ, ◌+◌, ◌≤◌, ◌≡◌, ◌⊎◌, refl, false, none,
  some, [], ◌∷◌, pos, ok, halt, null_argument, sum_of, ◌==◌, arith,
}
use dispatch_tester.Proton
use dispatch_tester.Proton.Options.{Letter, opt_l}
use dispatch_tester.Proton.Program.{Round}
use dispatch_tester.Proton.Decimal.{scan}
use dispatch_tester.OomSender.Main.{main}
use dispatch_tester.OomSender.{
  OomSender, FlowReads, Event, connection_init, link_flow, proactor_interrupt, capacity, write_body,
  continue_message, on_flow,
}
use dispatch_tester.OomSender.Body.{Inv, continue_message_window, oom_sender-Inv}

abbrev sending : OomSender
sending = record {
  stop = false;
  debug_mode = false;
  verbose = false;
  links = 1;
  target_address = "test-address";
  host_address = "127.0.0.1:5672";
  container_name = "OomSender";
  total_bytes = 116;
  tag = 1;
  sending = λ l. if l == 0 then some 100 else none;
  calls = [];
}

abbrev flow : ℕ → FlowReads
flow link = record {
  link = link;
  credit = 0;
  remote_max_frame = 512;
  incoming_window = 10;
  outgoing_bytes = 5000;
  rc = λ n. pos n;
}

-- The window leaves room for 120 octets.
abbrev sent_on : OomSender
sent_on = record sending {
  total_bytes = 236;
  sending = store sending.sending 0 (some 220);
  calls = Proton.link_send 120 ∷ [];
}

goes_on : continue_message (flow 0) 100 sending ≡ ok sent_on
unfolding continue_message write_body
goes_on = refl

continue_message_window_example :
    (sum_of Proton.octets sent_on.calls ≡ sum_of Proton.octets sending.calls)
    ⊎ (sum_of Proton.octets sent_on.calls + 5000
        ≤ sum_of Proton.octets sending.calls + capacity (flow 0))
continue_message_window_example =
    (continue_message_window (flow 0) 100 sending sent_on (omega arith) goes_on)

abbrev args : List (Letter × String)
args = (opt_l, "2") ∷ []

abbrev granted : FlowReads
granted = record (flow 1) { credit = 10; outgoing_bytes = 0 }

abbrev rounds : List (Round Event)
rounds =
    record {
      signal = false;
      events = connection_init ∷ link_flow granted ∷ link_flow (flow 1) ∷ [];
    }
    ∷ record { signal = true; events = proactor_interrupt ∷ [] }
    ∷ []

oom_sender-Inv_example : Ends (λ (r : Bool × OomSender). Inv 2 r.1) (main scan args rounds)
oom_sender-Inv_example = oom_sender-Inv 2 scan args rounds ground arith

null_delivery : on_flow (flow 1) sending ≡ halt null_argument
unfolding on_flow
null_delivery = refl
