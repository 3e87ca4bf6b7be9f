-- ===== src/Scale/Receiver/Examples.antt =====
-- The scale receiver with two messages in a window of four.
use dispatch_tester.Common.{sum_of, ℕ, ◌≡◌, refl, true, false, [], ◌∷◌, pos, arith}
use dispatch_tester.Proton
use dispatch_tester.Scale.Receiver.{
  AppData, Delivery, connection_init, delivery, on_init, acknowledge, grant, count_down,
  on_delivery, event_handler, run,
}
use dispatch_tester.Scale.Receiver.Flow.{Inv, credit-Inv, window_of_one}

abbrev initial : AppData
initial = record { count = 2; credit = 4; source = "examples"; quiet = true; calls = [] }

abbrev message : ℕ → Delivery
message credit = record {
  readable = true;
  partial = false;
  pending = 300;
  recv = pos 300;
  settled = false;
  credit = credit;
}

credit-Inv_example :
    Inv (run (connection_init ∷ delivery (message 3) ∷ delivery (message 2) ∷ []) initial)
credit-Inv_example =
    unfold on_init event_handler on_delivery acknowledge grant count_down in
    credit-Inv (delivery (message 3) ∷ delivery (message 2) ∷ []) initial refl ground arith

abbrev narrow : AppData
narrow = record initial { credit = 1 }

window_of_one_example :
    sum_of Proton.credits (run (connection_init ∷ delivery (message 0) ∷ []) narrow).calls ≡ 1
window_of_one_example =
    unfold on_init event_handler in
    window_of_one (delivery (message 0) ∷ []) narrow refl refl ground arith
