-- ===== src/Sender/Shutdown.antt =====
-- What `main` of benchmarks/clients/src/sender.c closes when the client has stopped.
use dispatch_tester.Common.{ℕ, ◌≡◌, true, ◌∷◌, arith}
use dispatch_tester.Proton
use dispatch_tester.Sender.Accounting.{Inv}
use dispatch_tester.Sender.Main.{Main, main_round}

-- With the accounts of a session and the client stopped, a round of the main loop closes the
-- connection and neither the link nor the session.
main_round_stopped :
    (now later : ℕ) (m : Main)
    → Inv m.globals
    → m.globals.stop ≡ true
    → (main_round now later m).globals
      ≡ record m.globals { calls = Proton.connection_close ∷ m.globals.calls }
unfolding main_round
main_round_stopped now later m v h = (ground (arith, v.no_link, v.no_session, h))
