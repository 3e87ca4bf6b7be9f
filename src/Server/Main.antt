-- ===== src/Server/Main.antt =====
-- `signal_handler` and `main`, with its option loop, in benchmarks/clients/src/server.c.
use dispatch_tester.Common.{
  ℕ, suc, String, Bool, true, false, Option, none, some, List, [], ◌∷◌, if◌then◌else◌, ◌==◌, ℤ, pos,
  Run, ok, ◌>>=◌,
}
use dispatch_tester.Proton.Options.{
  Letter, opt_a, opt_i, opt_s, opt_u, opt_w, Scanf, first_char, parse, text_octets,
}
use dispatch_tester.Proton
use dispatch_tester.Proton.Message.{DataCall, Encoded}
use dispatch_tester.Proton.Program.{Round, start}
use dispatch_tester.Server.{Server, Event, emit, generate_message, handle_all}

-- A proactor that is there is interrupted.
unfoldable pub signal_handler : Bool → Proton.Signal → Server → Server
signal_handler proactor Proton.sigother s = s
signal_handler proactor _ s = record s {
  stop = true;
  calls = if proactor then Proton.wakeup ∷ s.calls else s.calls;
}

-- The sizes behind the letters of `-s`.
abbrev set_body_size : Server → ℕ → Option Server
set_body_size s ch =
    if ch == b's'
    then some (record s { body_size = 100 })
    else if ch == b'm'
    then some (record s { body_size = 2000 })
    else if ch == b'l'
    then some (record s { body_size = 60000 })
    else none

-- The window must be positive.
abbrev set_window : Server → Option ℤ → Option Server
set_window s (some (pos (suc n))) = some (record s { credit_window = suc n })
set_window s _ = none

module _ (scanf : Scanf) where
  -- One option of the command line; `none` is `usage`.
  unfoldable pub option : Letter → String → Server → Option Server
  option opt_a arg s = some (record s { server_address = arg })
  option opt_i arg s = some (record s { container_name = arg })
  option opt_s arg s = set_body_size s (first_char arg)
  option opt_u arg s = some (record s { presettle = true })
  option opt_w arg s = set_window s (scanf.scan_int arg)
  option _ arg s = none

  unfoldable pub options : List (Letter × String) → Server → Option Server
  unfolding option
  options = parse option

-- The globals at the start.
abbrev pub defaults : Server
defaults = record {
  stop = false;
  server_address = "0.0.0.0:9999";
  container_name = "BenchServer";
  presettle = false;
  credit_window = 1000;
  rx_count = 0;
  body_size = 100;
  encode_buffer = false;
  encode_buffer_size = 0;
  encoded_data_size = 0;
  tag = 0;
  calls = [];
  link_calls = [];
}

unfoldable pub listen : Server → Server
listen s = emit (Proton.listen (text_octets s.server_address)) s

-- `do … while(!stop)`: the Boolean says whether the loop was left.
unfoldable pub serve : List (Round Event) → Server → Run (Bool × Server)
serve [] s = ok (false, s)
serve (r ∷ rs) s =
    handle_all r.events (if r.signal then signal_handler true Proton.sigint s else s) >>= λ t.
    elim t.stop [ true ↦ ok (true, t) | false ↦ serve rs t ]

unfoldable pub main :
    Scanf
    → (List DataCall → ℕ → Encoded)
    → List (Letter × String)
    → List (Round Event)
    → Run (Bool × Server)
main scanf encode args rounds =
    start (options scanf args defaults)
      (λ s. generate_message encode s >>= λ t. serve rounds (listen t))
