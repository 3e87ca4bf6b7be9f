-- ===== src/Sender/Main.antt =====
-- `signal_handler` and `main` of benchmarks/clients/src/sender.c. What is printed is left out, but for
-- the numbers of the report.
use dispatch_tester.Common.{
  ℕ, ◌+◌, ◌*◌, ◌/◌, String, Bool, true, not, ◌&&◌, if◌then◌else◌, leb, ◌==◌, Option, none, some,
  List, ◌∷◌, u64, sub64,
}
use dispatch_tester.Proton.Clock.{usecs_per_second}
use dispatch_tester.Proton.Options.{
  Letter, opt_a, opt_c, opt_i, opt_l, opt_n, opt_s, opt_t, opt_u, opt_v, opt_upper_m, Scanf,
  first_char, parse,
}
use dispatch_tester.Proton
use dispatch_tester.Sender.{Sender}

-- The globals with the locals of `main`.
pub record Main : Type 0 where
  pub globals : Sender
  pub print_deadline : ℕ
  pub printed : Bool

-- The signals are ignored from then on; a reactor that is there is woken.
unfoldable pub signal_handler : Bool → Proton.Signal → Sender → Sender
signal_handler reactor Proton.sigother s = s
signal_handler reactor _ s = record s {
  stop = true;
  calls = if reactor then Proton.wakeup ∷ s.calls else s.calls;
}

-- The sizes behind the letters of `-s`.
unfoldable pub body_size_of : ℕ → Option ℕ
body_size_of ch =
    if ch == b's'
    then some 100
    else if ch == b'm'
    then some 2000
    else if ch == b'l'
    then some 60000
    else none

abbrev set_limit : Main → Option ℕ → Option Main
set_limit m none = none
set_limit m (some n) = some (record m { globals = record m.globals { limit = n } })

abbrev set_body_size : Main → Option ℕ → Option Main
set_body_size m none = none
set_body_size m (some n) = some (record m { globals = record m.globals { body_size = n } })

module _ (scanf : Scanf) (now : ℕ) where
  -- One option of the command line; `none` is `usage`.
  unfoldable pub option : Letter → String → Main → Option Main
  unfolding body_size_of
  option opt_a arg m = some (record m { globals = record m.globals { host_address = arg } })
  option opt_c arg m = set_limit m (scanf.scan_u64 arg)
  option opt_i arg m = some (record m { globals = record m.globals { container_name = arg } })
  option opt_l arg m = some (record m { globals = record m.globals { add_timestamp = true } })
  option opt_n arg m = some (record m { globals = record m.globals { use_anonymous = true } })
  option opt_s arg m = set_body_size m (body_size_of (first_char arg))
  option opt_t arg m = some (record m { globals = record m.globals { target_address = arg } })
  option opt_u arg m = some (record m { globals = record m.globals { presettle = true } })
  option opt_v arg m = some (record m { print_deadline = now + 10 * usecs_per_second })
  option opt_upper_m arg m =
      some (record m { globals = record m.globals { add_annotations = true } })
  option _ arg m = none

  unfoldable pub options : List (Letter × String) → Main → Option Main
  unfolding option
  options = parse option

-- The closing of the endpoints: a null link or session is passed over.
unfoldable pub close_endpoints : Sender → Sender
close_endpoints s =
    let link : List Proton.Call = if s.pn_link then Proton.link_close ∷ s.calls else s.calls in
    let ssn : List Proton.Call = if s.pn_ssn then Proton.session_close ∷ link else link in
    record s { calls = Proton.connection_close ∷ ssn }

-- The body of the `while (pn_reactor_process(reactor))` loop; `now` and `later` are its two readings
-- of the clock.
unfoldable pub main_round : ℕ → ℕ → Main → Main
unfolding close_endpoints
main_round now later m =
    if m.globals.stop
    then record m {
      printed = if not m.printed && not (m.globals.count == 0) then true else m.printed;
      globals = close_endpoints m.globals;
    }
    else if not (m.print_deadline == 0) && leb m.print_deadline now
    then record m { print_deadline = later + 10 * usecs_per_second }
    else m

-- The integers of the stall report: the mean, and the variance.
unfoldable pub stall_report : Sender → Option (ℕ × ℕ)
stall_report s =
    let imean : ℕ = s.total_stall / s.stall_count in
    let isos : ℕ = s.sum_of_squares / s.stall_count in
    if s.stall_count == 0 then none else some (imean, sub64 isos (u64 (imean * imean)))

-- Whether the last report complains of messages that were not acknowledged.
unfoldable pub failure : Sender → Bool
failure s = not (s.not_accepted == 0) && not (u64 (s.accepted + s.not_accepted) == s.count)
