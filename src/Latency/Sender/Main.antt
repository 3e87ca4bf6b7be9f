-- ===== src/Latency/Sender/Main.antt =====
-- `signal_handler` and `main` of benchmarks/clients/src/latency-sender.c. What is printed is left out, but
-- for the numbers of the report.
use dispatch_tester.Common.{
  ℕ, String, Bool, true, false, Option, none, some, List, [], ◌∷◌, if◌then◌else◌, ◌==◌, Run, ok,
  ◌>>=◌,
}
use dispatch_tester.Proton.Options.{
  Letter, opt_a, opt_c, opt_i, opt_n, opt_p, opt_s, opt_t, Scanf, first_char, parse,
}
use dispatch_tester.Proton
use dispatch_tester.Proton.Message.{Message, Encoded}
use dispatch_tester.Proton.Program.{start}
use dispatch_tester.Latency.{no_latency, report}
use dispatch_tester.Latency.Sender.{LatencySender, Event, run}

-- A reactor that is there is woken.
unfoldable pub signal_handler : Bool → Proton.Signal → LatencySender → LatencySender
signal_handler reactor Proton.sigother s = s
signal_handler reactor _ s = record s {
  stop = true;
  calls = if reactor then Proton.wakeup ∷ s.calls else s.calls;
}

-- The sizes behind the letters of `-s`.
abbrev set_body_size : LatencySender → ℕ → Option LatencySender
set_body_size s ch =
    if ch == b's'
    then some (record s { body_size = 100 })
    else if ch == b'm'
    then some (record s { body_size = 2000 })
    else if ch == b'l'
    then some (record s { body_size = 60000 })
    else if ch == b'x'
    then some (record s { body_size = 1048576 })
    else none

abbrev set_limit : LatencySender → Option ℕ → Option LatencySender
set_limit s none = none
set_limit s (some n) = some (record s { limit = n })

abbrev set_priority : LatencySender → Option ℕ → Option LatencySender
set_priority s none = none
set_priority s (some n) = some (record s { priority = n })

module _ (scanf : Scanf) where
  -- One option of the command line; `none` is `usage`.
  unfoldable pub option : Letter → String → LatencySender → Option LatencySender
  option opt_a arg s = some (record s { host_address = arg })
  option opt_c arg s = set_limit s (scanf.scan_u64 arg)
  option opt_i arg s = some (record s { container_name = arg })
  option opt_n arg s = some (record s { use_anonymous = true })
  option opt_p arg s = set_priority s (scanf.scan_u8 arg)
  option opt_s arg s = set_body_size s (first_char arg)
  option opt_t arg s = some (record s { target_address = arg })
  option _ arg s = none

  unfoldable pub options : List (Letter × String) → LatencySender → Option LatencySender
  unfolding option
  options = parse option

-- The globals at the start.
abbrev pub defaults : LatencySender
defaults = record {
  stop = false;
  priority = 4;
  limit = 1;
  count = 0;
  acked = 0;
  accepted = 0;
  not_accepted = 0;
  pending_ack = false;
  use_anonymous = false;
  body_size = 100;
  encode_buffer = false;
  held = none;
  encode_buffer_size = 0;
  encoded_data_size = 0;
  target_address = "benchmark";
  host_address = "127.0.0.1:5672";
  container_name = "LatencyBenchSender";
  pn_ssn = false;
  pn_link = false;
  send_ts = 0;
  ack_ts = 0;
  stats = no_latency;
  tag = 0;
  calls = [];
}

-- A null link or session is passed over.
unfoldable pub close_endpoints : LatencySender → LatencySender
close_endpoints s =
    let link : List Proton.Call = if s.pn_link then Proton.link_close ∷ s.calls else s.calls in
    let ssn : List Proton.Call = if s.pn_ssn then Proton.session_close ∷ link else link in
    record s { calls = Proton.connection_close ∷ ssn }

-- `while (pn_reactor_process(reactor))`, over what each call of it dispatches: whether a signal came in
-- before, and the events.
unfoldable pub main_loop :
    (Message → ℕ → Encoded) → List (Bool × List Event) → LatencySender → Run LatencySender
main_loop encode [] s = ok s
main_loop encode ((signal, es) ∷ rounds) s =
    run encode es (if signal then signal_handler true Proton.sigint s else s) >>= λ t.
    main_loop encode rounds (if t.stop then close_endpoints t else t)

-- `main`: the globals and the numbers of the report, once the reactor has nothing left to do.
unfoldable pub main :
    Scanf
    → (Message → ℕ → Encoded)
    → List (Letter × String)
    → List (Bool × List Event)
    → Run (LatencySender × (ℕ × ℕ))
main scanf encode args rounds =
    start (options scanf args defaults) (λ s.
      main_loop encode rounds s >>= λ t. report t.count t.stats >>= λ figures. ok (t, figures))
