-- ===== src/Clogger/Examples.antt =====
-- A run of the clogger with a library that takes all that it is given: two messages of 1000 octets in
-- frames of 512.
use dispatch_tester.Common.{
  String, Ends, ℕ, ◌≡◌, refl, Bool, true, false, List, [], ◌∷◌, ℤ, pos, ok, arith,
}
use dispatch_tester.Proton
use dispatch_tester.Proton.Options.{Letter, opt_c, opt_s}
use dispatch_tester.Proton.Program.{Round}
use dispatch_tester.Proton.Decimal.{scan, scan-IsScanf}
use dispatch_tester.Clogger.{
  Clogger, Event, connection_init, connection_remote_open, link_flow, delivery, proactor_timeout,
  connection_wake,
}
use dispatch_tester.Clogger.Framing.{Inv, Accepts}
use dispatch_tester.Clogger.Progress.{wake_ups, wake_ups_complete, Out}
use dispatch_tester.Clogger.Main.{main}
use dispatch_tester.Clogger.Session.{clogger-Inv}

abbrev opened : Clogger
opened = record {
  stop = false;
  verbose = false;
  limit = 2;
  sent = 0;
  acked = 0;
  accepted = 0;
  not_accepted = 0;
  use_anonymous = false;
  presettle = false;
  body_length = 1000;
  pause_msec = 100;
  target_address = "test-address";
  host_address = "127.0.0.1:5672";
  container_name = "Clogger";
  pn_conn = true;
  pn_ssn = true;
  pn_link = true;
  pn_dlv = false;
  bytes_sent = 0;
  remote_max_frame = 512;
  tag = 0;
  calls = [];
}

abbrev takes : ℕ → ℤ
takes n = pos n

takes-Accepts : Accepts takes
takes-Accepts n = refl

opened-Inv : Inv opened
opened-Inv = ground arith

abbrev events : List Event
events =
    connection_remote_open 512
    ∷ link_flow 5
    ∷ proactor_timeout
    ∷ connection_wake 4
    ∷ connection_wake 4
    ∷ delivery true Proton.accepted
    ∷ []

abbrev args : List (Letter × String)
args = (opt_c, "2") ∷ (opt_s, "1000") ∷ []

abbrev rounds : List (Round Event)
rounds =
    record { signal = false; events = connection_init ∷ events }
    ∷ record { signal = true; events = [] }
    ∷ []

clogger-Inv_example : Ends (λ (r : Bool × (ℕ × Clogger)). Inv r.1.1) (main scan takes args rounds)
clogger-Inv_example = clogger-Inv takes takes-Accepts scan args rounds scan-IsScanf

abbrev writing : Clogger
writing = record opened { pn_dlv = true; calls = Proton.delivery_new 0 ∷ [] }

wake_ups_complete_example :
    (t : Clogger) × (wake_ups takes 2 writing ≡ ok (true, t)) × Out 1000 writing t
wake_ups_complete_example =
    (wake_ups_complete takes takes-Accepts 1 writing refl (omega arith) (omega arith) (omega arith))
