-- ===== src/Receiver/Main.antt =====
-- `signal_handler`, the option loop and the loop of `main` in benchmarks/clients/src/receiver.c.
use dispatch_tester.Common.{
  ◌/◌, square, sub_ℕ, negsuc, ℕ, suc, ◌+◌, ◌*◌, String, Bool, true, not, ◌&&◌, if◌then◌else◌, leb,
  ◌==◌, Option, none, some, List, ◌∷◌, ℤ, pos,
}
use dispatch_tester.Proton.Clock.{usecs_per_second}
use dispatch_tester.Proton.Options.{
  Letter, opt_a, opt_c, opt_i, opt_l, opt_s, opt_v, opt_w, Scanf, parse,
}
use dispatch_tester.Proton
use dispatch_tester.Receiver.{Receiver}

-- The globals with the locals of `main`.
pub record Main : Type 0 where
  pub globals : Receiver
  pub print_deadline : ℕ
  pub printed : Bool

unfoldable pub signal_handler : Bool → Proton.Signal → Receiver → Receiver
signal_handler reactor Proton.sigother s = s
signal_handler reactor _ s = record s {
  stop = true;
  calls = if reactor then Proton.wakeup ∷ s.calls else s.calls;
}

-- `credit_window` must be positive.
abbrev pub set_window : Main → Option ℤ → Option Main
set_window m (some (pos (suc n))) =
    some (record m { globals = record m.globals { credit_window = suc n } })
set_window m _ = none

abbrev set_limit : Main → Option ℕ → Option Main
set_limit m none = none
set_limit m (some n) = some (record m { globals = record m.globals { limit = n } })

module _ (scanf : Scanf) (now : ℕ) where
  -- One option of the command line; `none` is `usage`.
  unfoldable pub option : Letter → String → Main → Option Main
  option opt_a arg m = some (record m { globals = record m.globals { host_address = arg } })
  option opt_c arg m = set_limit m (scanf.scan_u64 arg)
  option opt_i arg m = some (record m { globals = record m.globals { container_name = arg } })
  option opt_l arg m = some (record m { globals = record m.globals { check_latency = true } })
  option opt_s arg m = some (record m { globals = record m.globals { source_address = arg } })
  option opt_w arg m = set_window m (scanf.scan_int arg)
  option opt_v arg m = some (record m { print_deadline = now + 10 * usecs_per_second })
  option _ arg m = none

  unfoldable pub options : List (Letter × String) → Main → Option Main
  unfolding option
  options = parse option

unfoldable pub close_endpoints : Receiver → Receiver
close_endpoints s =
    let link : List Proton.Call = if s.pn_link then Proton.link_close ∷ s.calls else s.calls in
    let ssn : List Proton.Call = if s.pn_ssn then Proton.session_close ∷ link else link in
    record s { calls = Proton.connection_close ∷ ssn }

-- The body of the `while (pn_reactor_process(reactor))` loop; `now` and `later` are two readings of
-- the clock.
unfoldable pub main_round : ℕ → ℕ → Main → Main
unfolding close_endpoints
main_round now later m =
    if m.globals.stop
    then record m {
      printed = if not m.printed && not (m.globals.count == 0) then true else m.printed;
      globals = close_endpoints m.globals;
    }
    else if not (m.print_deadline == 0) && leb m.print_deadline now
    then record m { print_deadline = later + 10 * usecs_per_second }
    else m

-- The division of C, which cuts towards zero.
abbrev pub div_ℤ : ℤ → ℕ → ℤ
div_ℤ (pos a) n = pos (a / n)
div_ℤ (negsuc a) n = sub_ℕ 0 (suc a / n)

-- The integers of the latency report: the mean, and the variance.
unfoldable pub latency_report : Receiver → Option (ℤ × ℤ)
latency_report s =
    let lmean : ℤ = div_ℤ s.total_latency s.latency_count in
    let isos : ℕ = s.sum_of_squares / s.latency_count in
    if s.latency_count == 0 then none else some (lmean, sub_ℕ isos (square lmean))
