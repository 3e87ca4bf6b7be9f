-- ===== src/OomReceiver/Main.antt =====
-- `signal_handler` and `main`, with its option loop and its batches, in skupper-router/oomster/oom-receiver.c.
use dispatch_tester.Common.{
  [], false, ℕ, suc, String, Bool, true, Option, none, some, List, ◌∷◌, if◌then◌else◌, ltb, ℤ, pos,
  Run,
}
use dispatch_tester.Proton.Options.{
  Letter, opt_a, opt_i, opt_l, opt_s, opt_w, opt_upper_d, opt_upper_f, opt_upper_w, Scanf, parse,
  text_octets,
}
use dispatch_tester.Proton
use dispatch_tester.Proton.Address.{oom_address}
use dispatch_tester.Proton.Program.{Round, start, event_loop}
use dispatch_tester.Proton.Links.{handle_batch}
use dispatch_tester.OomReceiver.{OomReceiver, Event, event_handler}

unfoldable pub signal_handler : Bool → OomReceiver → OomReceiver
signal_handler proactor s = record s {
  stop = true;
  calls = if proactor then Proton.wakeup ∷ s.calls else s.calls;
}

-- At least one link, a positive window, frames of at least 512 octets, and two of them for each link.
abbrev pub set_links : OomReceiver → Option ℕ → Option OomReceiver
set_links s (some (suc n)) = some (record s { links = suc n })
set_links s _ = none

abbrev pub set_credit : OomReceiver → Option ℤ → Option OomReceiver
set_credit s (some (pos (suc n))) = some (record s { credit_window = suc n })
set_credit s _ = none

abbrev pub set_max_frame : OomReceiver → Option ℕ → Option OomReceiver
set_max_frame s none = none
set_max_frame s (some n) = if ltb n 512 then none else some (record s { in_max_frame = n })

abbrev pub set_frames : OomReceiver → Option ℕ → Option OomReceiver
set_frames s none = none
set_frames s (some n) = if ltb n 2 then none else some (record s { per_link_session_frames = n })

module _ (scanf : Scanf) where
  -- One option of the command line; `none` is `usage`.
  unfoldable pub option : Letter → String → OomReceiver → Option OomReceiver
  option opt_a arg s = some (record s { host_address = arg })
  option opt_l arg s = set_links s (scanf.scan_u32 arg)
  option opt_i arg s = some (record s { container_name = arg })
  option opt_s arg s = some (record s { source_address = arg })
  option opt_w arg s = set_credit s (scanf.scan_int arg)
  option opt_upper_d arg s = some (record s { debug_mode = true })
  option opt_upper_f arg s = set_max_frame s (scanf.scan_u32 arg)
  option opt_upper_w arg s = set_frames s (scanf.scan_u32 arg)
  option _ arg s = none

  unfoldable pub options : List (Letter × String) → OomReceiver → Option OomReceiver
  unfolding option
  options = parse option

-- The events of a batch, up to the one that stops the client.
unfoldable pub batch : List Event → OomReceiver → Run (Bool × OomReceiver)
batch = handle_batch event_handler

-- The globals at the start.
abbrev pub defaults : OomReceiver
defaults = record {
  stop = false;
  debug_mode = false;
  links = 1;
  credit_window = 1000;
  in_max_frame = 512;
  per_link_session_frames = 10;
  source_address = "oom-address";
  host_address = "127.0.0.1:5672";
  container_name = "OOMReceiver";
  calls = [];
}

unfoldable pub connect : OomReceiver → OomReceiver
connect s =
    let (host, port) = oom_address (text_octets s.host_address) in
    record s { calls = Proton.connect_to s.container_name host port ∷ s.calls }

-- `main`: the Boolean says whether the event loop was left; the exit status is then 0.
unfoldable pub main : Scanf → List (Letter × String) → List (Round Event) → Run (Bool × OomReceiver)
unfolding oom_address
main scanf args rounds =
    start (options scanf args defaults)
      (λ s. event_loop (signal_handler true) event_handler rounds (connect s))
