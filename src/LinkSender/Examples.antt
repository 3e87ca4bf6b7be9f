-- ===== src/LinkSender/Examples.antt =====
-- Runs of the link sender with a library that takes all that it is given.
use dispatch_tester.Common.{
  String, ℕ, ◌+◌, ◌≡◌, refl, Bool, true, false, none, some, List, [], ◌∷◌, map, pos, count_if,
  sum_of, Ends, ok, arith, ◌==◌,
}
use dispatch_tester.Proton
use dispatch_tester.Proton.Options.{Letter, opt_l, opt_s}
use dispatch_tester.Proton.Program.{Round}
use dispatch_tester.Proton.Decimal.{scan}
use dispatch_tester.LinkSender.{LinkSender, FlowReads, Event, connection_init, link_flow, delivery}
use dispatch_tester.LinkSender.Main.{batch, main}
use dispatch_tester.LinkSender.Body.{IsReady, message_out}
use dispatch_tester.LinkSender.Close.{Inv, link_sender-Inv, ends, last_close}

-- Two links, and messages of 70000 octets.
abbrev initial : LinkSender
initial = record {
  debug_mode = false;
  target_address = "balanced/address";
  host_address = "127.0.0.1:5672";
  container_name = "LinkSender";
  max_links = 2;
  closed_links = 0;
  body_length = 70000;
  tag = 0;
  sending = λ l. none;
  calls = [];
}

abbrev flow : ℕ → FlowReads
flow link = record {
  link = link;
  active = true;
  credit = 10;
  current = false;
  made = true;
  writable = true;
  rc = λ n. pos n;
}

flow-IsReady : IsReady 1 (flow 1)
flow-IsReady = record { at = refl; up = refl; free = refl; takes = λ n. refl }

message_out_example :
    (t : LinkSender) × (batch (link_flow (flow 1) ∷ map link_flow (flow 1 ∷ flow 1 ∷ [])) initial
      ≡ ok (false, t))
    × (t.sending 1 ≡ some 70000)
    × (sum_of Proton.octets t.calls ≡ 16 + 70000 + 0)
    × (count_if Proton.is_advance t.calls ≡ 1)
    × ((k : ℕ) → (k == 1) ≡ false → t.sending k ≡ none)
message_out_example =
    message_out (flow 1) (flow 1 ∷ flow 1 ∷ []) 1 initial flow-IsReady
      (record { some_credit = omega arith; idle = refl; new = refl })
      (flow-IsReady, (flow-IsReady, tt)) omega arith omega arith refl omega arith

abbrev events : List Event
events =
    connection_init
    ∷ link_flow (flow 0)
    ∷ link_flow (flow 1)
    ∷ link_flow (flow 0)
    ∷ delivery true Proton.accepted
    ∷ delivery true Proton.rejected
    ∷ []

abbrev args : List (Letter × String)
args = (opt_l, "2") ∷ (opt_s, "70000") ∷ []

abbrev rounds : List (Round Event)
rounds = record { signal = false; events = events } ∷ record { signal = true; events = [] } ∷ []

link_sender-Inv_example : Ends (λ (r : Bool × LinkSender). Inv 2 r.1) (main scan args rounds)
link_sender-Inv_example = link_sender-Inv 2 scan args rounds ground arith

last_close_example :
    (t : LinkSender) × (batch (ends (Proton.released ∷ Proton.accepted ∷ [])) initial
      ≡ ok (true, t))
    × (t.closed_links ≡ 2)
    × (count_if Proton.is_link_close t.calls ≡ 2 + 0)
    × (count_if Proton.is_settle t.calls ≡ 2 + 0)
last_close_example = last_close Proton.released (Proton.accepted ∷ []) initial (tt, (tt, tt)) refl
