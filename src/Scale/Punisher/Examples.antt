-- ===== src/Scale/Punisher/Examples.antt =====
-- The punisher with five messages, and without end.
use dispatch_tester.Common.{String, ℤ, pos, if◌then◌else◌, ltb, ℕ, true, false, some, List, [], ◌∷◌}
use dispatch_tester.Proton
use dispatch_tester.Proton.Options.{Letter, opt_c, opt_p}
use dispatch_tester.Scale.{Builder, overflow, encoded}
use dispatch_tester.Scale.Punisher.{AppData, Event, connection_init, link_flow, delivery}

abbrev initial : ℕ → AppData
initial count = record {
  count = count;
  anon = false;
  presettle = true;
  sent = 0;
  acked = 0;
  target = "examples";
  msg_len = 300;
  tag = 0;
  calls = [];
}

abbrev rounds : List (List Event)
rounds =
    (connection_init ∷ link_flow 3 ∷ [])
    ∷ (delivery true (some Proton.accepted) ∷ link_flow 10 ∷ [])
    ∷ []

-- Five messages of 300 octets.
abbrev args : List (Letter × String)
args = (opt_c, "5") ∷ (opt_p, "") ∷ []

abbrev atoi : String → ℤ
atoi text = pos 5

abbrev builder : Builder
builder = record {
  fails = λ text. false;
  encode = λ target text size. if ltb size 300 then overflow size else encoded 300;
}
