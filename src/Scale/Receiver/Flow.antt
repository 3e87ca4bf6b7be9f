-- ===== src/Scale/Receiver/Flow.antt =====
-- The credit window of the scale receiver.
use dispatch_tester.Common.{
  ℕ, ◌+◌, ◌/◌, ◌≤◌, ◌≡◌, refl, ◌∙◌, true, false, List, [], ◌∷◌, count_if, sum_of, arith,
}
use dispatch_tester.Proton
use dispatch_tester.Scale.Receiver.{
  AppData, Delivery, Event, connection_init, delivery, unhandled, on_init, on_delivery,
  event_handler, run,
}

abbrev pub granted : AppData → ℕ
granted s = sum_of Proton.credits s.calls

-- The messages that were settled.
abbrev pub received : AppData → ℕ
received s = count_if Proton.is_settle s.calls

-- No more than a window of credit is outstanding, and no less than half of one; a message is done with
-- by an advance and a settlement.
pub record Inv (s : AppData) : Type 0 where
  pub ceiling : granted s ≤ received s + s.credit
  pub floor : received s + s.credit / 2 ≤ granted s
  pub advanced : count_if Proton.is_advance s.calls ≡ received s

-- What the library documents of `pn_link_credit`: the credit granted so far, less the messages that
-- used it up. The delivery is the next message.
abbrev pub IsCredit : Delivery → AppData → Type 0
IsCredit d s = d.credit + (received s + 1) ≡ granted s

on_delivery-Inv : (d : Delivery) (s : AppData) → IsCredit d s → Inv s → Inv (on_delivery d s)
unfolding on_delivery
on_delivery-Inv d s c v = ground arith

abbrev pub IsAnswer : Event → AppData → Type 0
IsAnswer connection_init s = ⊥
IsAnswer (delivery d) s = IsCredit d s
IsAnswer unhandled s = Unit

abbrev pub AreAnswers : List Event → AppData → Type 0
AreAnswers [] s = Unit
AreAnswers (e ∷ es) s = IsAnswer e s × AreAnswers es (event_handler e s)

run-Inv : (es : List Event) (s : AppData) → AreAnswers es s → Inv s → Inv (run es s)
unfolding run event_handler
run-Inv [] s a v = v
run-Inv (connection_init ∷ es) s a v = elim a.0 [ ]
run-Inv (delivery d ∷ es) s a v = run-Inv es (on_delivery d s) a.1 (on_delivery-Inv d s a.0 v)
run-Inv (unhandled ∷ es) s a v = run-Inv es s a.1 v

-- In a session of the scale receiver that begins with PN_CONNECTION_INIT on no calls, and goes on
-- with deliveries at which the library reports the credit granted less the messages that used it,
-- or with events that it leaves alone, the credit outstanding stays between half a window and a
-- window, and each message settled is advanced over.
pub credit-Inv :
    (es : List Event) (s : AppData)
    → s.calls ≡ []
    → AreAnswers es (on_init s)
    → Inv (run (connection_init ∷ es) s)
unfolding run event_handler on_init
credit-Inv es s fresh a = run-Inv es (on_init s) a ground arith

-- A full message.
abbrev pub IsFull : Delivery → Type 0
IsFull d = (d.readable ≡ true) × (d.partial ≡ false)

one_more :
    (e : Event) (s : AppData)
    → IsAnswer e s
    → s.credit ≡ 1
    → ((event_handler e s).credit ≡ 1) × (granted (event_handler e s) ≡ granted s)
unfolding event_handler on_delivery
one_more connection_init s a w = elim a [ ]
one_more (delivery d) s a w = ground arith
one_more unhandled s a w = ground arith

run_one :
    (es : List Event) (s : AppData)
    → AreAnswers es s
    → s.credit ≡ 1
    → granted (run es s) ≡ granted s
unfolding run
run_one [] s a w = refl
run_one (e ∷ es) s a w =
    let (window, same) = one_more e s a.0 w in run_one es (event_handler e s) a.1 window ∙ same

-- A scale receiver with a window of one, whose session begins with PN_CONNECTION_INIT on no calls
-- and goes on with deliveries at which the library reports the credit granted less the messages
-- that used it, or with events that it leaves alone, grants one credit in all and never another.
pub window_of_one :
    (es : List Event) (s : AppData)
    → s.calls ≡ []
    → s.credit ≡ 1
    → AreAnswers es (on_init s)
    → sum_of Proton.credits (run (connection_init ∷ es) s).calls ≡ 1
unfolding run event_handler on_init
window_of_one es s fresh w a = run_one es (on_init s) a w ∙ (ground (arith, fresh, w))
