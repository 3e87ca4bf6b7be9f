-- ===== src/Clogger/Main.antt =====
-- `signal_handler` and `main`, with its option loop and its event loop, in clients/chaos/clogger.c.
use dispatch_tester.Common.{
  ℕ, String, Bool, true, false, not, ◌&&◌, if◌then◌else◌, ◌==◌, ◌+◌, Option, none, some, List, [],
  ◌∷◌, u64, Run, ok, ◌>>=◌, ℤ,
}
use dispatch_tester.Proton.Options.{
  Letter, opt_a, opt_c, opt_i, opt_n, opt_s, opt_t, opt_u, opt_upper_d, opt_upper_p, Scanf, parse,
  text_octets,
}
use dispatch_tester.Proton
use dispatch_tester.Proton.Links.{handle_batch}
use dispatch_tester.Proton.Program.{Round, start}
use dispatch_tester.Clogger.{Clogger, Event, default_max_frame, event_handler}

unfoldable pub signal_handler : Bool → Proton.Signal → Clogger → Clogger
signal_handler proactor Proton.sigother s = s
signal_handler proactor _ s = record s {
  stop = true;
  calls = if proactor then Proton.wakeup ∷ s.calls else s.calls;
}

module _ (scanf : Scanf) where
  -- One option of the command line; `none` is `usage`.
  unfoldable pub option : Letter → String → Clogger → Option Clogger
  option opt_a arg s = some (record s { host_address = arg })
  option opt_c arg s = elim (scanf.scan_u64 arg) [
    | none ↦ none
    | some n ↦ some (record s { limit = n })
  ]
  option opt_i arg s = some (record s { container_name = arg })
  option opt_n arg s = some (record s { use_anonymous = true })
  option opt_s arg s = elim (scanf.scan_u32 arg) [
    | none ↦ none
    | some n ↦ some (record s { body_length = n })
  ]
  option opt_t arg s = some (record s { target_address = arg })
  option opt_u arg s = some (record s { presettle = true })
  option opt_upper_d arg s = some (record s { verbose = true })
  option opt_upper_p arg s = elim (scanf.scan_u32 arg) [
    | none ↦ none
    | some n ↦ some (record s { pause_msec = n })
  ]
  option _ arg s = none

  unfoldable pub options : List (Letter × String) → Clogger → Option Clogger
  unfolding option
  options = parse option

-- The endpoints are closed once, and their pointers cleared.
unfoldable pub close_endpoints : Clogger → Clogger
close_endpoints s =
    let link : List Proton.Call = if s.pn_link then Proton.link_close ∷ s.calls else s.calls in
    let ssn : List Proton.Call = if s.pn_ssn then Proton.session_close ∷ link else link in
    record s {
      pn_link = false;
      pn_ssn = false;
      pn_conn = false;
      calls = if s.pn_conn then Proton.connection_close ∷ ssn else ssn;
    }

-- The events of one batch, up to the one that stops the client.
unfoldable pub batch : (ℕ → ℤ) → List Event → Clogger → Run (Bool × Clogger)
batch rc = handle_batch (event_handler rc)

-- One round of `while (!done)`.
unfoldable pub round : (ℕ → ℤ) → List Event → Clogger → Run (Bool × Clogger)
round rc es s = batch rc es s >>= λ r. ok (r.0, if r.1.stop then close_endpoints r.1 else r.1)

-- The exit status: 1 if messages were left without an acknowledgement.
unfoldable pub exit_status : Clogger → ℕ
exit_status s =
    if not (s.not_accepted == 0) && not (u64 (s.accepted + s.not_accepted) == s.sent) then 1 else 0

-- `while (!done)`: the Boolean says whether the loop was left; without a further batch it waits.
unfoldable pub rounds_loop : (ℕ → ℤ) → List (Round Event) → Clogger → Run (Bool × Clogger)
rounds_loop rc [] s = ok (false, s)
rounds_loop rc (r ∷ rs) s =
    round rc r.events (if r.signal then signal_handler true Proton.sigint s else s) >>= λ p.
    elim p.0 [ true ↦ ok p | false ↦ rounds_loop rc rs p.1 ]

-- The globals at the start.
abbrev pub defaults : Clogger
defaults = record {
  stop = false;
  verbose = false;
  limit = 1;
  sent = 0;
  acked = 0;
  accepted = 0;
  not_accepted = 0;
  use_anonymous = false;
  presettle = false;
  body_length = 1048576;
  pause_msec = 100;
  target_address = "test-address";
  host_address = "127.0.0.1:5672";
  container_name = "Clogger";
  pn_conn = false;
  pn_ssn = false;
  pn_link = false;
  pn_dlv = false;
  bytes_sent = 0;
  remote_max_frame = default_max_frame;
  tag = 0;
  calls = [];
}

-- The library takes the address as it is.
unfoldable pub connect : Clogger → Clogger
connect s = record s {
  pn_conn = true;
  calls = Proton.connect_to s.container_name (text_octets s.host_address) [] ∷ s.calls;
}

-- `main`: whether the loop was left, and then the exit status, with the globals.
unfoldable pub main :
    Scanf → (ℕ → ℤ) → List (Letter × String) → List (Round Event) → Run (Bool × (ℕ × Clogger))
main scanf rc args rounds =
    start (options scanf args defaults)
      (λ s. rounds_loop rc rounds (connect s) >>= λ p. ok (p.0, (exit_status p.1, p.1)))
