-- ===== src/LinkReceiver/Main.antt =====
-- `signal_handler` and `main`, with its option loop and its batches, in
-- skupper-router/clients/amqp_link_scale/link-receiver.c.
use dispatch_tester.Common.{
  [], false, suc, String, Bool, true, Option, none, some, List, ◌∷◌, if◌then◌else◌, ℤ, pos, Run,
}
use dispatch_tester.Proton.Options.{
  Letter, opt_a, opt_i, opt_l, opt_s, opt_upper_d, Scanf, parse, text_octets,
}
use dispatch_tester.Proton
use dispatch_tester.Proton.Address.{link_receiver_address}
use dispatch_tester.Proton.Program.{Round, start, event_loop}
use dispatch_tester.Proton.Links.{handle_batch}
use dispatch_tester.LinkReceiver.{LinkReceiver, Event, event_handler}

-- A proactor that is there is interrupted.
unfoldable pub signal_handler : Bool → LinkReceiver → LinkReceiver
signal_handler proactor s = record s {
  calls = if proactor then Proton.wakeup ∷ s.calls else s.calls;
}

-- The number of links must be positive.
abbrev set_max_links : LinkReceiver → Option ℤ → Option LinkReceiver
set_max_links s (some (pos (suc n))) = some (record s { max_links = suc n })
set_max_links s _ = none

module _ (scanf : Scanf) where
  -- One option of the command line; `none` is `usage`.
  unfoldable pub option : Letter → String → LinkReceiver → Option LinkReceiver
  option opt_a arg s = some (record s { host_address = arg })
  option opt_l arg s = set_max_links s (scanf.scan_int arg)
  option opt_i arg s = some (record s { container_name = arg })
  option opt_s arg s = some (record s { source_address = arg })
  option opt_upper_d arg s = some (record s { debug_mode = true })
  option _ arg s = none

  unfoldable pub options : List (Letter × String) → LinkReceiver → Option LinkReceiver
  unfolding option
  options = parse option

-- The events of a batch, up to the one that stops the client.
unfoldable pub batch : List Event → LinkReceiver → Run (Bool × LinkReceiver)
batch = handle_batch event_handler

-- The globals at the start.
abbrev pub defaults : LinkReceiver
defaults = record {
  debug_mode = false;
  source_address = "balanced/address";
  host_address = "127.0.0.1:5672";
  container_name = "LinkReceiver";
  max_links = 100;
  msg_count = 0;
  totals = λ d. 0;
  calls = [];
}

unfoldable pub connect : LinkReceiver → LinkReceiver
connect s =
    let (host, port) = link_receiver_address (text_octets s.host_address) in
    record s { calls = Proton.connect_to s.container_name host port ∷ s.calls }

-- `main`: the Boolean says whether the event loop was left; the exit status is then 0.
unfoldable pub main :
    Scanf → List (Letter × String) → List (Round Event) → Run (Bool × LinkReceiver)
unfolding link_receiver_address
main scanf args rounds =
    start (options scanf args defaults)
      (λ s. event_loop (signal_handler true) event_handler rounds (connect s))
