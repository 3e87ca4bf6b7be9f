-- ===== src/LinkSender/Main.antt =====
-- `signal_handler` and `main`, with its option loop and its batches, in
-- skupper-router/clients/amqp_link_scale/link-sender.c.
use dispatch_tester.Common.{
  ℕ, suc, String, Bool, true, false, Option, none, some, List, [], ◌∷◌, if◌then◌else◌, ℤ, pos, Run,
}
use dispatch_tester.Proton.Options.{
  Letter, opt_a, opt_i, opt_l, opt_s, opt_t, opt_upper_d, Scanf, parse, text_octets,
}
use dispatch_tester.Proton
use dispatch_tester.Proton.Address.{link_sender_address}
use dispatch_tester.Proton.Links.{handle_batch}
use dispatch_tester.Proton.Program.{Round, start, event_loop}
use dispatch_tester.LinkSender.{LinkSender, Event, event_handler}

-- A proactor that is there is interrupted.
unfoldable pub signal_handler : Bool → LinkSender → LinkSender
signal_handler proactor s = record s {
  calls = if proactor then Proton.wakeup ∷ s.calls else s.calls;
}

-- The number of links must be positive, and the body not empty.
abbrev set_max_links : LinkSender → Option ℤ → Option LinkSender
set_max_links s (some (pos (suc n))) = some (record s { max_links = suc n })
set_max_links s _ = none

abbrev set_body_length : LinkSender → Option ℕ → Option LinkSender
set_body_length s (some (suc n)) = some (record s { body_length = suc n })
set_body_length s _ = none

module _ (scanf : Scanf) where
  -- One option of the command line; `none` is `usage`.
  unfoldable pub option : Letter → String → LinkSender → Option LinkSender
  option opt_a arg s = some (record s { host_address = arg })
  option opt_i arg s = some (record s { container_name = arg })
  option opt_t arg s = some (record s { target_address = arg })
  option opt_upper_d arg s = some (record s { debug_mode = true })
  option opt_l arg s = set_max_links s (scanf.scan_int arg)
  option opt_s arg s = set_body_length s (scanf.scan_u32 arg)
  option _ arg s = none

  unfoldable pub options : List (Letter × String) → LinkSender → Option LinkSender
  unfolding option
  options = parse option

-- The events of a batch, up to the one that stops the client.
unfoldable pub batch : List Event → LinkSender → Run (Bool × LinkSender)
batch = handle_batch event_handler

-- The globals at the start.
abbrev pub defaults : LinkSender
defaults = record {
  debug_mode = false;
  target_address = "balanced/address";
  host_address = "127.0.0.1:5672";
  container_name = "LinkSender";
  max_links = 100;
  closed_links = 0;
  body_length = 1024;
  tag = 0;
  sending = λ l. none;
  calls = [];
}

unfoldable pub connect : LinkSender → LinkSender
connect s =
    let (host, port) = link_sender_address (text_octets s.host_address) in
    record s { calls = Proton.connect_to s.container_name host port ∷ s.calls }

-- `main`: the Boolean says whether the event loop was left; the exit status is then 0.
unfoldable pub main : Scanf → List (Letter × String) → List (Round Event) → Run (Bool × LinkSender)
unfolding link_sender_address
main scanf args rounds =
    start (options scanf args defaults)
      (λ s. event_loop (signal_handler true) event_handler rounds (connect s))
