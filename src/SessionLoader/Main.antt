-- ===== src/SessionLoader/Main.antt =====
-- `signal_handler` and `main`, with its option loop, in skupper-router/clients/session-loader.c.
use dispatch_tester.Common.{
  Run, [], false, ℕ, suc, String, Bool, true, Option, none, some, List, ◌∷◌, if◌then◌else◌,
}
use dispatch_tester.Proton.Options.{
  Letter, opt_a, opt_c, opt_i, opt_l, opt_t, opt_upper_d, Scanf, parse, text_octets,
}
use dispatch_tester.Proton
use dispatch_tester.Proton.Address.{loader_address}
use dispatch_tester.Proton.Program.{Round, start, event_loop}
use dispatch_tester.SessionLoader.{Loader, Event, event_handler}

-- Any signal that the handler was set for stops the client.
unfoldable pub signal_handler : Bool → Loader → Loader
signal_handler proactor s = record s {
  stop = true;
  calls = if proactor then Proton.wakeup ∷ s.calls else s.calls;
}

-- Neither count may be zero.
abbrev set_session_limit : Loader → Option ℕ → Option Loader
set_session_limit s (some (suc n)) = some (record s { session_limit = suc n })
set_session_limit s _ = none

abbrev set_link_limit : Loader → Option ℕ → Option Loader
set_link_limit s (some (suc n)) = some (record s { link_limit = suc n })
set_link_limit s _ = none

module _ (scanf : Scanf) where
  -- One option of the command line; `none` is `usage`.
  unfoldable pub option : Letter → String → Loader → Option Loader
  option opt_a arg s = some (record s { host_address = arg })
  option opt_c arg s = set_session_limit s (scanf.scan_u32 arg)
  option opt_i arg s = some (record s { container_name = arg })
  option opt_l arg s = set_link_limit s (scanf.scan_u32 arg)
  option opt_t arg s = some (record s { target_address = arg })
  option opt_upper_d arg s = some (record s { verbose = true })
  option _ arg s = none

  unfoldable pub options : List (Letter × String) → Loader → Option Loader
  unfolding option
  options = parse option

-- The globals at the start.
abbrev pub defaults : Loader
defaults = record {
  stop = false;
  verbose = false;
  session_limit = 1000;
  link_limit = 100;
  session_count = 0;
  link_count = 0;
  target_address = "test-address";
  host_address = "127.0.0.1:5672";
  container_name = "SessionLoader";
  tag = 0;
  calls = [];
}

unfoldable pub connect : Loader → Loader
connect s =
    let (host, port) = loader_address (text_octets s.host_address) in
    record s { calls = Proton.connect_to s.container_name host port ∷ s.calls }

-- `main`: the Boolean says whether the event loop was left; the exit status is then 0.
unfoldable pub main : Scanf → List (Letter × String) → List (Round Event) → Run (Bool × Loader)
unfolding loader_address
main scanf args rounds =
    start (options scanf args defaults)
      (λ s. event_loop (signal_handler true) event_handler rounds (connect s))
