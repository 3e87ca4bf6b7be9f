-- ===== src/SessionLoader/Examples.antt =====
-- Runs of the session loader, with three sessions of two links each.
use dispatch_tester.Common.{
  String, Ends, Bool, List, All, ◌*◌, ◌≡◌, refl, true, false, some, pos, [], ◌∷◌, ◌++◌, ok, arith,
}
use dispatch_tester.Proton.Options.{Letter, opt_c, opt_l}
use dispatch_tester.Proton.Decimal.{scan, scan-IsScanf, digits}
use dispatch_tester.Proton.Program.{quiet}
use dispatch_tester.SessionLoader.{
  Loader, FlowReads, Event, connection_init, session_opened, session_closed, proactor_interrupt,
}
use dispatch_tester.SessionLoader.Main.{option, options, defaults, main}
use dispatch_tester.SessionLoader.Session.{
  IsGrant, links_opened, messages, sessions_opened, sessions_closed,
}
use dispatch_tester.SessionLoader.Progress.{Inv, IsLater, session_loader-Inv}
use dispatch_tester.SessionLoader.Complete.{sessions, session_loader_completes}

abbrev args : List (Letter × String)
args = (opt_c, "3") ∷ (opt_l, "2") ∷ []

abbrev later : List Event
later = session_opened true ∷ session_closed true ∷ session_closed false ∷ []

later-AreLater : All IsLater later
later-AreLater = ((λ h. cc), ((λ h. cc), ((λ h. cc), tt)))

session_loader-Inv_example :
    Ends
      (λ (r : Bool × Loader). Inv r.1)
      (main scan args (
        record { signal = false; events = connection_init ∷ later }
        ∷ record { signal = true; events = later }
        ∷ []))
session_loader-Inv_example =
    session_loader-Inv scan args later (record { signal = true; events = later } ∷ []) scan-IsScanf
      later-AreLater (later-AreLater, tt)

abbrev credit : FlowReads
credit = record { current = false; credit = 250; made = true; rc = pos 16 }

grants : All IsGrant (credit ∷ credit ∷ [])
grants = ground arith

abbrev configured : Loader
configured = record defaults { session_limit = 3; link_limit = 2 }

takes_args : options scan args defaults ≡ some configured
unfolding options option digits
takes_args = refl

abbrev session_reads : List (List FlowReads)
session_reads = (credit ∷ credit ∷ []) ∷ (credit ∷ credit ∷ []) ∷ []

session_loader_completes_example :
    (t : Loader) × (main scan args (
        quiet (connection_init ∷ [])
        ∷ (sessions ((credit ∷ credit ∷ []) ∷ session_reads)
            ++ quiet (proactor_interrupt ∷ []) ∷ []))
      ≡ ok (true, t))
    × (t.session_count ≡ 3)
    × (sessions_opened t ≡ 3)
    × (sessions_closed t ≡ 3)
    × (links_opened t ≡ 3 * 2)
    × (messages t ≡ 3 * 2)
session_loader_completes_example =
    session_loader_completes scan args configured (credit ∷ credit ∷ []) session_reads scan-IsScanf
      takes_args refl ((grants, refl), ((grants, refl), ((grants, refl), tt)))
