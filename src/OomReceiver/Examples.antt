-- ===== src/OomReceiver/Examples.antt =====
-- The OOM receiver with a small configuration, and with one whose window is lost.
use dispatch_tester.Common.{
  ◌*◌, ◌≡◌, ◌≤◌, ◌<◌, ◌⊎◌, u32, refl, false, some, List, [], ◌∷◌, String, pos, count_if, sum_of, ok,
  halt, assert_failed, arith,
}
use dispatch_tester.Proton
use dispatch_tester.Proton.Options.{Letter, opt_l}
use dispatch_tester.Proton.Program.{Round}
use dispatch_tester.Proton.Decimal.{scan, digits}
use dispatch_tester.OomReceiver.{OomReceiver, Event, connection_bound}
use dispatch_tester.OomReceiver.Main.{option, options, defaults, main}
use dispatch_tester.OomReceiver.Window.{oom_receiver-cases}

abbrev bound : List (Round Event)
bound = record { signal = false; events = connection_bound (pos 0) ∷ [] } ∷ []

abbrev args : List (Letter × String)
args = (opt_l, "3") ∷ []

abbrev configured : OomReceiver
configured = record defaults { links = 3 }

takes_args : options scan args defaults ≡ some configured
unfolding options option digits
takes_args = refl

oom_receiver-cases_example :
    ((2 ≤ u32 (10 * 3))
      × ((t : OomReceiver) × (main scan args bound ≡ ok (false, t))
          × (count_if Proton.is_link_open t.calls ≡ 3)
          × (sum_of Proton.credits t.calls ≡ 3 * 1000)))
    ⊎ ((u32 (10 * 3) < 2) × (main scan args bound ≡ halt assert_failed))
oom_receiver-cases_example = oom_receiver-cases scan args configured takes_args omega arith
