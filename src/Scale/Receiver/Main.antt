-- ===== src/Scale/Receiver/Main.antt =====
-- `main` of clients/scale/src/receiver.c, with its options.
use dispatch_tester.Common.{
  Run, ok, false, [], ◌∷◌, suc, String, true, Option, none, some, List, ℤ, pos, negsuc,
}
use dispatch_tester.Proton.Options.{
  Letter, opt_a, opt_c, opt_f, opt_i, opt_q, opt_s, parse, text_octets,
}
use dispatch_tester.Proton
use dispatch_tester.Proton.Program.{start}
use dispatch_tester.Scale.Receiver.{AppData, Event, run}

-- The data of the handler with the locals of `main`.
pub record Main : Type 0 where
  pub app_data : AppData
  pub address : String
  pub container : String

-- A count that is not negative, and a positive window.
abbrev pub set_count : Main → ℤ → Option Main
set_count m (pos n) = some (record m { app_data = record m.app_data { count = n } })
set_count m (negsuc n) = none

abbrev pub set_credit : Main → ℤ → Option Main
set_credit m (pos (suc n)) = some (record m { app_data = record m.app_data { credit = suc n } })
set_credit m _ = none

module _ (atoi : String → ℤ) where
  -- One option of the command line; `none` is `usage`.
  unfoldable pub option : Letter → String → Main → Option Main
  option opt_a arg m = some (record m { address = arg })
  option opt_c arg m = set_count m (atoi arg)
  option opt_s arg m = some (record m { app_data = record m.app_data { source = arg } })
  option opt_i arg m = some (record m { container = arg })
  option opt_q arg m = some (record m { app_data = record m.app_data { quiet = true } })
  option opt_f arg m = set_credit m (atoi arg)
  option _ arg m = none

  unfoldable pub options : List (Letter × String) → Main → Option Main
  unfolding option
  options = parse option

-- The defaults.
abbrev pub defaults : Main
defaults = record {
  app_data = record { count = 1; credit = 100; source = "examples"; quiet = false; calls = [] };
  address = "localhost";
  container = "ReceiveExample";
}

-- The data of the handler once the connection is made.
unfoldable pub connected : Main → AppData
connected m = record m.app_data {
  calls = Proton.connect_to m.container (text_octets m.address) [] ∷ m.app_data.calls;
}

-- `main`, over the events that the reactor dispatches.
unfoldable pub main : (String → ℤ) → List (Letter × String) → List Event → Run AppData
main atoi args events = start (options atoi args defaults) (λ m. ok (run events (connected m)))
