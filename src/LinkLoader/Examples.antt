-- ===== src/LinkLoader/Examples.antt =====
-- A run of the link loader with three cycles of two links.
use dispatch_tester.Common.{
  ◌*◌, ◌≡◌, refl, true, false, some, List, [], ◌∷◌, ◌++◌, String, pos, ok, All, arith,
}
use dispatch_tester.Proton.Options.{Letter, opt_c, opt_l}
use dispatch_tester.Proton.Decimal.{scan, scan-IsScanf, digits}
use dispatch_tester.Proton.Program.{quiet}
use dispatch_tester.LinkLoader.{Loader, FlowReads, connection_init, proactor_interrupt}
use dispatch_tester.LinkLoader.Batches.{IsGrant, opened, closed, messages}
use dispatch_tester.LinkLoader.Main.{option, options, defaults, main}
use dispatch_tester.LinkLoader.Complete.{cycles, link_loader_completes}

abbrev credit : FlowReads
credit = record { current = false; credit = 10; made = true; rc = pos 16; active = 2 }

grants : All (IsGrant 2) (credit ∷ credit ∷ [])
grants = ground arith

abbrev args : List (Letter × String)
args = (opt_c, "3") ∷ (opt_l, "2") ∷ []

abbrev configured : Loader
configured = record defaults { repeat_count = 3; link_limit = 2 }

takes_args : options scan args defaults ≡ some configured
unfolding options option digits
takes_args = refl

abbrev cycle_reads : List (List FlowReads)
cycle_reads = (credit ∷ credit ∷ []) ∷ (credit ∷ credit ∷ []) ∷ []

link_loader_completes_example :
    (t : Loader) × (main scan args (
        quiet (connection_init ∷ [])
        ∷ (cycles 2 ((credit ∷ credit ∷ []) ∷ cycle_reads) ++ quiet (proactor_interrupt ∷ []) ∷ []))
      ≡ ok (true, t))
    × (t.repeat_count ≡ 0)
    × (opened t ≡ 3 * 2)
    × (messages t ≡ 3 * 2)
    × (closed t ≡ 3 * 2)
link_loader_completes_example =
    link_loader_completes scan args configured (credit ∷ credit ∷ []) cycle_reads scan-IsScanf
      takes_args refl ((grants, refl), ((grants, refl), ((grants, refl), tt)))
