-- ===== src/OomSender/Main.antt =====
-- `signal_handler` and `main`, with its option loop and its batches, in skupper-router/oomster/oom-sender.c.
use dispatch_tester.Common.{
  String, Bool, true, false, Option, none, some, List, [], ◌∷◌, if◌then◌else◌, ℤ, pos, negsuc, Run,
}
use dispatch_tester.Proton.Options.{
  Letter, opt_a, opt_i, opt_l, opt_t, opt_v, opt_upper_d, Scanf, parse, text_octets,
}
use dispatch_tester.Proton
use dispatch_tester.Proton.Links.{handle_batch}
use dispatch_tester.Proton.Address.{oom_address}
use dispatch_tester.Proton.Program.{Round, start, event_loop}
use dispatch_tester.OomSender.{OomSender, Event, event_handler}

unfoldable pub signal_handler : Bool → OomSender → OomSender
signal_handler proactor s = record s {
  stop = true;
  calls = if proactor then Proton.wakeup ∷ s.calls else s.calls;
}

-- A negative number of links opens none: the loop `for (int i = 0; i < links; ++i)` is left at once.
abbrev set_links : OomSender → Option ℤ → Option OomSender
set_links s none = none
set_links s (some (pos n)) = some (record s { links = n })
set_links s (some (negsuc n)) = some (record s { links = 0 })

module _ (scanf : Scanf) where
  -- One option of the command line; `none` is `usage`.
  unfoldable pub option : Letter → String → OomSender → Option OomSender
  option opt_a arg s = some (record s { host_address = arg })
  option opt_l arg s = set_links s (scanf.scan_int arg)
  option opt_i arg s = some (record s { container_name = arg })
  option opt_t arg s = some (record s { target_address = arg })
  option opt_upper_d arg s = some (record s { debug_mode = true })
  option opt_v arg s = some (record s { verbose = true })
  option _ arg s = none

  unfoldable pub options : List (Letter × String) → OomSender → Option OomSender
  unfolding option
  options = parse option

-- The events of a batch, up to the one that stops the client.
unfoldable pub batch : List Event → OomSender → Run (Bool × OomSender)
batch = handle_batch event_handler

-- The globals at the start.
abbrev pub defaults : OomSender
defaults = record {
  stop = false;
  debug_mode = false;
  verbose = false;
  links = 1;
  target_address = "oom-address";
  host_address = "127.0.0.1:5672";
  container_name = "OOMSender";
  total_bytes = 0;
  tag = 0;
  sending = λ l. none;
  calls = [];
}

unfoldable pub connect : OomSender → OomSender
connect s =
    let (host, port) = oom_address (text_octets s.host_address) in
    record s { calls = Proton.connect_to s.container_name host port ∷ s.calls }

-- `main`: the Boolean says whether the event loop was left; the exit status is then 0.
unfoldable pub main : Scanf → List (Letter × String) → List (Round Event) → Run (Bool × OomSender)
unfolding oom_address
main scanf args rounds =
    start (options scanf args defaults)
      (λ s. event_loop (signal_handler true) event_handler rounds (connect s))
