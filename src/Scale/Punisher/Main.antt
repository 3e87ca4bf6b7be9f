-- ===== src/Scale/Punisher/Main.antt =====
-- `main` of clients/scale/src/punisher.c, with its options, and the rate that it reports.
use dispatch_tester.Common.{
  Run, ok, ◌>>=◌, false, [], ◌∷◌, ℕ, ◌-◌, ◌/◌, String, true, Option, none, some, List, ℤ, pos,
  negsuc, if◌then◌else◌, ltb,
}
use dispatch_tester.Proton.Options.{
  Letter, opt_a, opt_c, opt_i, opt_n, opt_p, opt_t, parse, text_octets,
}
use dispatch_tester.Proton
use dispatch_tester.Proton.Program.{start}
use dispatch_tester.Scale.{kept_in_int, Builder, build_message}
use dispatch_tester.Scale.Punisher.{AppData, Event, main_loop}

-- The data of the handler with the locals of `main`.
pub record Main : Type 0 where
  pub app_data : AppData
  pub address : String
  pub container : String

-- A count that is not negative.
abbrev pub set_count : Main → ℤ → Option Main
set_count m (pos n) = some (record m { app_data = record m.app_data { count = n } })
set_count m (negsuc n) = none

module _ (atoi : String → ℤ) where
  -- One option of the command line; `none` is `usage`.
  unfoldable pub option : Letter → String → Main → Option Main
  option opt_a arg m = some (record m { address = arg })
  option opt_c arg m = set_count m (atoi arg)
  option opt_t arg m = some (record m { app_data = record m.app_data { target = arg } })
  option opt_n arg m = some (record m { app_data = record m.app_data { anon = true } })
  option opt_i arg m = some (record m { container = arg })
  option opt_p arg m = some (record m { app_data = record m.app_data { presettle = true } })
  option _ arg m = none

  unfoldable pub options : List (Letter × String) → Main → Option Main
  unfolding option
  options = parse option

-- Messages in a second, from the seconds of two readings of the clock.
unfoldable pub throughput : ℕ → ℕ → AppData → ℕ
throughput start end s = if ltb start end then s.count / (end - start) else s.count

-- The defaults.
abbrev pub defaults : Main
defaults = record {
  app_data = record {
    count = 1;
    anon = false;
    presettle = false;
    sent = 0;
    acked = 0;
    target = "examples";
    msg_len = 0;
    tag = 0;
    calls = [];
  };
  address = "localhost:5672";
  container = "SendExample";
}

-- The data of the handler once the message is built and the connection made.
unfoldable pub prepared : Main → ℕ → AppData
prepared m size = record m.app_data {
  msg_len = kept_in_int size;
  calls = Proton.connect_to m.container (text_octets m.address) [] ∷ m.app_data.calls;
}

-- `main`, over the events that each call of the reactor dispatches, between the seconds of two readings
-- of the clock. The result has the rate that is reported.
unfoldable pub main :
    (String → ℤ)
    → Builder
    → List (Letter × String)
    → Option String
    → List (List Event)
    → ℕ
    → ℕ
    → Run (ℕ × AppData)
unfolding throughput
main atoi b args operand rounds begin end = start (options atoi args defaults) (λ m.
    build_message b m.app_data.target operand >>= λ r.
    let s : AppData = main_loop rounds (prepared m r.1) in ok (throughput begin end s, s))
