-- ===== src/Latency/Receiver/Main.antt =====
-- `signal_handler` and `main` of benchmarks/clients/src/latency-receiver.c. What is printed is left out,
-- but for the numbers of the report.
use dispatch_tester.Common.{
  ℕ, suc, String, Bool, true, false, Option, none, some, List, [], ◌∷◌, if◌then◌else◌, ◌==◌, ℤ, pos,
  Run, ok, ◌>>=◌,
}
use dispatch_tester.Proton.Options.{Letter, opt_a, opt_c, opt_i, opt_s, opt_w, Scanf, parse}
use dispatch_tester.Proton
use dispatch_tester.Proton.Program.{start}
use dispatch_tester.Latency.{no_latency, report}
use dispatch_tester.Latency.Receiver.{LatencyReceiver, Event, event_handler}

-- A reactor that is there is woken.
unfoldable pub signal_handler : Bool → Proton.Signal → LatencyReceiver → LatencyReceiver
signal_handler reactor Proton.sigother s = s
signal_handler reactor _ s = record s {
  stop = true;
  calls = if reactor then Proton.wakeup ∷ s.calls else s.calls;
}

abbrev set_limit : LatencyReceiver → Option ℕ → Option LatencyReceiver
set_limit s none = none
set_limit s (some n) = some (record s { limit = n })

-- The window must be positive.
abbrev set_window : LatencyReceiver → Option ℤ → Option LatencyReceiver
set_window s (some (pos (suc n))) = some (record s { credit_window = suc n })
set_window s _ = none

module _ (scanf : Scanf) where
  -- One option of the command line; `none` is `usage`.
  unfoldable pub option : Letter → String → LatencyReceiver → Option LatencyReceiver
  option opt_a arg s = some (record s { host_address = arg })
  option opt_c arg s = set_limit s (scanf.scan_u64 arg)
  option opt_i arg s = some (record s { container_name = arg })
  option opt_s arg s = some (record s { source_address = arg })
  option opt_w arg s = set_window s (scanf.scan_int arg)
  option _ arg s = none

  unfoldable pub options : List (Letter × String) → LatencyReceiver → Option LatencyReceiver
  unfolding option
  options = parse option

-- The globals at the start.
abbrev pub defaults : LatencyReceiver
defaults = record {
  stop = false;
  stats = no_latency;
  credit_window = 1000;
  source_address = "benchmark";
  host_address = "127.0.0.1:5672";
  container_name = "BenchReceiver";
  pn_ssn = false;
  pn_link = false;
  in_message = false;
  count = 0;
  limit = 0;
  calls = [];
}

-- A null link or session is passed over.
unfoldable pub close_endpoints : LatencyReceiver → LatencyReceiver
close_endpoints s =
    let link : List Proton.Call = if s.pn_link then Proton.link_close ∷ s.calls else s.calls in
    let ssn : List Proton.Call = if s.pn_ssn then Proton.session_close ∷ link else link in
    record s { calls = Proton.connection_close ∷ ssn }

-- The events that one call of `pn_reactor_process` dispatches.
unfoldable pub run : List Event → LatencyReceiver → Run LatencyReceiver
run [] s = ok s
run (e ∷ es) s = event_handler e s >>= run es

-- `while (pn_reactor_process(reactor))`, over what each call of it dispatches: whether a signal came in
-- before, and the events.
unfoldable pub main_loop : List (Bool × List Event) → LatencyReceiver → Run LatencyReceiver
main_loop [] s = ok s
main_loop ((signal, es) ∷ rounds) s =
    run es (if signal then signal_handler true Proton.sigint s else s) >>= λ t.
    main_loop rounds (if t.stop then close_endpoints t else t)

abbrev figures_of : LatencyReceiver → Run (Option (ℕ × ℕ))
figures_of s =
    if s.count == 0 then ok none else (report s.count s.stats >>= λ figures. ok (some figures))

-- `main`: the globals and the numbers of the report, which is made if a message was received.
unfoldable pub main :
    Scanf
    → List (Letter × String)
    → List (Bool × List Event)
    → Run (LatencyReceiver × Option (ℕ × ℕ))
main scanf args rounds =
    start (options scanf args defaults)
      (λ s. main_loop rounds s >>= λ t. figures_of t >>= λ figures. ok (t, figures))
