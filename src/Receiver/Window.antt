-- ===== src/Receiver/Window.antt =====
-- The credit window and the message limit of the benchmark receiver.
use dispatch_tester.Common.{
  ℕ, ◌+◌, ◌/◌, ◌≤◌, ◌<◌, ◌^◌, ◌≡◌, Bool, true, false, List, [], ◌∷◌, sum_of, count_if, u64,
  if◌then◌else◌, arith,
}
use dispatch_tester.Proton
use dispatch_tester.Proton.Credit.{replenish_window, replenish_counts}
use dispatch_tester.Receiver.{
  Receiver, Delivery, Event, connection_init, delivery, unhandled, all_received, add_latency,
  count_message, decode, measure, complete, on_message, on_delivery, on_init, event_handler, run,
}

abbrev pub granted : Receiver → ℕ
granted s = sum_of Proton.credits s.calls

pub record Inv (s : Receiver) : Type 0 where
  pub positive : 0 < s.credit_window
  pub limit_word : s.limit < 2 ^ 64
  pub bounded : 0 < s.limit → s.count ≤ s.limit
  pub window : granted s ≤ s.count + s.credit_window
  pub settled : u64 (count_if Proton.is_settle s.calls) ≡ s.count
  pub accepts : count_if Proton.is_accept s.calls ≡ count_if Proton.is_settle s.calls
  pub stopped : 0 < s.limit → s.count ≡ s.limit → s.stop ≡ true

-- Measuring touches the latency statistics alone.
pub measure_frame :
    (b : Bool) (d : Delivery) (s : Receiver)
    → let t = if b then measure d s else s in
      (t.credit_window ≡ s.credit_window)
      × (t.limit ≡ s.limit)
      × (t.count ≡ s.count)
      × (t.calls ≡ s.calls)
      × (t.stop ≡ s.stop)
unfolding measure decode add_latency
measure_frame b d s = ground arith

-- What the library documents of `pn_link_credit` on a receiving link: the credit granted so far, less
-- the messages that used it up. The message at hand is the next one.
abbrev pub IsCredit : Delivery → Receiver → Type 0
IsCredit d s = d.credit + (s.count + 1) ≡ granted s

-- Between the count and the settlement.
record Counted (d : Delivery) (b : Receiver) : Type 0 where
  positive : 0 < b.credit_window
  limit_word : b.limit < 2 ^ 64
  count_word : b.count < 2 ^ 64
  bounded : 0 < b.limit → b.count ≤ b.limit
  window : granted b < b.count + b.credit_window
  settled : u64 (count_if Proton.is_settle b.calls + 1) ≡ b.count
  accepts : count_if Proton.is_accept b.calls ≡ count_if Proton.is_settle b.calls
  credit : d.credit + b.count ≡ granted b

complete-Inv : (d : Delivery) (b : Receiver) → Counted d b → Inv (complete d b)
unfolding complete
complete-Inv d b v =
    (ground (
      arith,
      replenish_window b.credit_window b.limit b.count d.credit calls,
      replenish_counts b.credit_window b.limit b.count d.credit calls,
    ))
  where
    calls : List Proton.Call
    calls = Proton.delivery_settle ∷ Proton.delivery_update Proton.accepted ∷ b.calls

on_message-Inv :
    (d : Delivery) (s : Receiver)
    → s.count + 1 < 2 ^ 64
    → IsCredit d s
    → all_received s ≡ false
    → Inv s
    → Inv (on_message d s)
unfolding on_message count_message
on_message-Inv d s w c n v =
    complete-Inv d _ (ground (arith, measure_frame s.check_latency d (count_message d s)))

-- Every delivery keeps the accounts: each message is accepted and settled once, no more than a window
-- of credit is outstanding, and at the limit the client stops.
pub on_delivery-Inv :
    (d : Delivery) (s : Receiver)
    → s.count + 1 < 2 ^ 64
    → IsCredit d s
    → Inv s
    → Inv (on_delivery d s)
unfolding on_delivery
on_delivery-Inv d s w c v = (ground (arith, on_message-Inv d s w c))

-- The globals when PN_CONNECTION_INIT comes: nothing counted, nothing called.
pub record IsFresh (s : Receiver) : Type 0 where
  pub positive : 0 < s.credit_window
  pub limit_word : s.limit < 2 ^ 64
  pub none_received : s.count ≡ 0
  pub no_calls : s.calls ≡ []

pub on_init-Inv : (s : Receiver) → IsFresh s → Inv (on_init s)
unfolding on_init
on_init-Inv s f = ground arith

-- What the library may answer to the events after the first.
abbrev pub IsAnswer : Event → Receiver → Type 0
IsAnswer connection_init s = ⊥
IsAnswer (delivery d) s = (s.count + 1 < 2 ^ 64) × IsCredit d s
IsAnswer unhandled s = Unit

abbrev pub AreAnswers : List Event → Receiver → Type 0
AreAnswers [] s = Unit
AreAnswers (e ∷ es) s = IsAnswer e s × AreAnswers es (event_handler e s)

run-Inv : (es : List Event) (s : Receiver) → AreAnswers es s → Inv s → Inv (run es s)
unfolding run event_handler
run-Inv [] s a v = v
run-Inv (connection_init ∷ es) s a v = elim a.0 [ ]
run-Inv (delivery d ∷ es) s a v =
    run-Inv es (on_delivery d s) a.1 (on_delivery-Inv d s a.0.0 a.0.1 v)
run-Inv (unhandled ∷ es) s a v = run-Inv es s a.1 v

-- A session of the receiver on fresh globals, where the count stays in range and the library
-- reports the credit that is left, keeps its accounts: each message counted is accepted and
-- settled once, the credit granted stays within a window of the count, and at the limit the client
-- stops.
pub reception-Inv :
    (es : List Event) (s : Receiver)
    → IsFresh s
    → AreAnswers es (on_init s)
    → Inv (run (connection_init ∷ es) s)
unfolding run event_handler
reception-Inv es s f a = run-Inv es (on_init s) a (on_init-Inv s f)

-- From sound accounts, with a count in range and where the library reports the credit that is
-- left, a whole message that is short of the limit is counted and leaves more than half a window
-- of credit outstanding.
pub on_delivery_supply :
    (d : Delivery) (s : Receiver)
    → s.count + 1 < 2 ^ 64
    → IsCredit d s
    → Inv s
    → d.readable ≡ true
    → d.partial ≡ false
    → (0 < s.limit → s.count + 1 < s.limit)
    → let t = on_delivery d s in
      (t.count ≡ s.count + 1) × (t.count + t.credit_window / 2 < granted t)
unfolding on_delivery on_message complete count_message
on_delivery_supply d s w c v r p l =
    (ground (
      arith,
      measure_frame s.check_latency d (count_message d s),
      replenish_window s.credit_window s.limit (s.count + 1) d.credit
          (Proton.delivery_settle ∷ Proton.delivery_update Proton.accepted ∷ s.calls),
    ))
