-- ===== src/LinkReceiver/Examples.antt =====
-- A batch of the link receiver: a message in two parts, and one that is broken off.
use dispatch_tester.Common.{
  String, Ends, ℕ, ◌-◌, Bool, true, false, List, [], ◌∷◌, ℤ, pos, negsuc, if◌then◌else◌, ltb, arith,
}
use dispatch_tester.Proton.Options.{Letter, opt_l}
use dispatch_tester.Proton.Program.{Round}
use dispatch_tester.Proton.Decimal.{scan}
use dispatch_tester.LinkReceiver.{LinkReceiver, Delivery, Event, connection_bound, delivery}
use dispatch_tester.LinkReceiver.Main.{main}
use dispatch_tester.LinkReceiver.Drain.{IsProgress}
use dispatch_tester.LinkReceiver.Credit.{Inv, link_receiver-Inv}

-- Up to 65536 octets at a time.
abbrev takes : ℕ → ℤ × ℕ
takes avail = if ltb 65536 avail then (pos 65536, avail - 65536) else (pos avail, 0)

takes-IsProgress : IsProgress takes
takes-IsProgress avail n h e = ground arith

abbrev fails : ℕ → ℤ × ℕ
fails avail = (negsuc 0, avail)

fails-IsProgress : IsProgress fails
fails-IsProgress avail n h e = ground arith

abbrev part : ℕ → (ℕ → ℤ × ℕ) → Bool → Delivery
part pending recv partial = record { id = 7; pending = pending; recv = recv; partial = partial }

abbrev events : List Event
events =
    connection_bound
    ∷ delivery (part 200000 takes true)
    ∷ delivery (part 500 takes false)
    ∷ delivery (part 4 fails true)
    ∷ []

abbrev args : List (Letter × String)
args = (opt_l, "3") ∷ []

abbrev rounds : List (Round Event)
rounds = record { signal = false; events = events } ∷ []

link_receiver-Inv_example : Ends (λ (r : Bool × LinkReceiver). Inv r.1) (main scan args rounds)
link_receiver-Inv_example =
    link_receiver-Inv scan args rounds
      ((tt, (takes-IsProgress, (takes-IsProgress, (fails-IsProgress, tt)))), tt)
