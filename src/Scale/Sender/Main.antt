-- ===== src/Scale/Sender/Main.antt =====
-- `main` of clients/scale/src/sender.c, with its options.
use dispatch_tester.Common.{
  ℕ, Run, ok, ◌>>=◌, false, [], ◌∷◌, suc, String, Bool, true, if◌then◌else◌, Option, none, some,
  List, ℤ, pos,
}
use dispatch_tester.Proton.Options.{
  Letter, opt_a, opt_c, opt_i, opt_n, opt_p, opt_q, opt_t, parse, text_octets,
}
use dispatch_tester.Proton
use dispatch_tester.Proton.Program.{start}
use dispatch_tester.Scale.{kept_in_int, Builder, build_message}
use dispatch_tester.Scale.Sender.{AppData, Event, run}

-- The data of the handler with the locals of `main`.
pub record Main : Type 0 where
  pub app_data : AppData
  pub quiet : Bool
  pub address : String
  pub container : String

-- At least one message.
abbrev pub set_count : Main → ℤ → Option Main
set_count m (pos (suc n)) = some (record m { app_data = record m.app_data { count = suc n } })
set_count m _ = none

module _ (atoi : String → ℤ) where
  -- One option of the command line; `none` is `usage`.
  unfoldable pub option : Letter → String → Main → Option Main
  option opt_a arg m = some (record m { address = arg })
  option opt_c arg m = set_count m (atoi arg)
  option opt_t arg m = some (record m { app_data = record m.app_data { target = arg } })
  option opt_n arg m = some (record m { app_data = record m.app_data { anon = true } })
  option opt_i arg m = some (record m { container = arg })
  option opt_q arg m = some (record m { quiet = true })
  option opt_p arg m = some (record m { app_data = record m.app_data { presettled = true } })
  option _ arg m = none

  unfoldable pub options : List (Letter × String) → Main → Option Main
  unfolding option
  options = parse option

-- Unless the messages are presettled all of them are waited for.
unfoldable pub wait_for : AppData → AppData
wait_for s = if s.presettled then s else record s { acked = pos s.count }

-- The defaults.
abbrev pub defaults : Main
defaults = record {
  app_data = record {
    count = 1;
    anon = false;
    presettled = false;
    acked = pos 1;
    target = "examples";
    msg_len = 0;
    tag = 0;
    calls = [];
  };
  quiet = false;
  address = "localhost";
  container = "SendExample";
}

-- The data of the handler once the message is built and the connection made.
unfoldable pub prepared : Main → ℕ → AppData
prepared m size = record m.app_data {
  msg_len = kept_in_int size;
  calls = Proton.connect_to m.container (text_octets m.address) [] ∷ m.app_data.calls;
}

-- `main`, over the events that the reactor dispatches.
unfoldable pub main :
    (String → ℤ) → Builder → List (Letter × String) → Option String → List Event → Run AppData
main atoi b args operand events = start (options atoi args defaults) (λ m.
    build_message b m.app_data.target operand >>= λ r. ok (run events (wait_for (prepared m r.1))))
