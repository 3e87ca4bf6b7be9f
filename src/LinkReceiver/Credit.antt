-- ===== src/LinkReceiver/Credit.antt =====
-- The accounts of the link receiver: what is accepted, settled and given back as credit.
use dispatch_tester.Common.{
  String, true, [], refl, Ends, Returns-Ends, ℕ, ◌+◌, ◌*◌, ◌≡◌, Bool, false, List, ◌∷◌, All,
  count_if, sum_of, u64, ok, Returns, Returns-bind, arith,
}
use dispatch_tester.Proton
use dispatch_tester.Proton.Options.{Letter, Scanf, IfSome, parse-keeps}
use dispatch_tester.Proton.Program.{Round, start-Ends, event_loop-Ends}
use dispatch_tester.Proton.Links.{open_receivers-counts}
use dispatch_tester.LinkReceiver.{
  LinkReceiver, Delivery, Event, connection_bound, delivery, proactor_inactive, proactor_interrupt,
  unhandled, credit_window, drain, finish, after_drain, on_delivery, event_handler,
}
use dispatch_tester.LinkReceiver.Main.{option, options, defaults, connect, signal_handler, main}
use dispatch_tester.LinkReceiver.Drain.{IsProgress, drain-total}

-- Each message is accepted and settled once and counted, and the credit is a window for each link and
-- one more for each message.
pub record Inv (s : LinkReceiver) : Type 0 where
  pub accepted : count_if Proton.is_accept s.calls ≡ count_if Proton.is_settle s.calls
  pub counted : s.msg_count ≡ u64 (count_if Proton.is_settle s.calls)
  pub granted :
      sum_of Proton.credits s.calls
      ≡ count_if Proton.is_link_open s.calls * credit_window + count_if Proton.is_settle s.calls

-- A delivery whose octets come in or fail.
abbrev pub IsServed : Event → Type 0
IsServed (delivery d) = IsProgress d.recv
IsServed _ = Unit

after_drain-Inv : (d : Delivery) (s : LinkReceiver) (r : Bool × ℕ) → Inv s → Inv (after_drain d s r)
unfolding after_drain finish
after_drain-Inv d s r v = ground arith

on_delivery-Inv :
    (d : Delivery) (s : LinkReceiver) → IsProgress d.recv → Inv s → Returns Inv (on_delivery d s)
unfolding on_delivery
on_delivery-Inv d s served v =
    Returns-bind (λ (r : Bool × ℕ). Unit) Inv (drain d.recv d.pending d.pending (s.totals d.id))
      (λ r. ok (after_drain d s r))
      (drain-total d.recv d.pending d.pending (s.totals d.id) served (omega arith))
      (λ r h. after_drain-Inv d s r v)

event_handler-Inv :
    (e : Event) (s : LinkReceiver)
    → IsServed e
    → Inv s
    → Returns (λ (r : Bool × LinkReceiver). Inv r.1) (event_handler e s)
unfolding event_handler
event_handler-Inv connection_bound s served v =
    (ground (
      arith,
      open_receivers-counts s.max_links s.source_address 1000
          (Proton.session_open ∷ Proton.connection_open ∷ s.calls),
    ))
event_handler-Inv (delivery d) s served v =
    Returns-bind Inv (λ (r : Bool × LinkReceiver). Inv r.1) (on_delivery d s) (λ t. ok (false, t))
      (on_delivery-Inv d s served v) (λ t h. h)
event_handler-Inv proactor_inactive s served v = v
event_handler-Inv proactor_interrupt s served v = v
event_handler-Inv unhandled s served v = v

-- Nothing has been received.
record IsFresh (s : LinkReceiver) : Type 0 where
  none_counted : s.msg_count ≡ 0
  no_calls : s.calls ≡ []

option-IsFresh :
    (scanf : Scanf) (c : Letter) (arg : String) (s : LinkReceiver)
    → IsFresh s
    → IfSome IsFresh (option scanf c arg s)
unfolding option
option-IsFresh scanf c arg s v = ground arith

connect-Inv : (s : LinkReceiver) → IsFresh s → Inv (connect s)
unfolding connect
connect-Inv s v = (ground (arith, v.none_counted, v.no_calls))

signal_handler-Inv : (s : LinkReceiver) → Inv s → Inv (signal_handler true s)
unfolding signal_handler
signal_handler-Inv s v = ground arith

-- Every run of `main` of the link receiver, whatever the command line, the signals and the events
-- whose reads take octets or fail, ends, in `usage` or with its accounts in order: messages are
-- accepted and settled as often, they are counted, and the credit granted is a window for each
-- open link and one for each message.
pub link_receiver-Inv :
    (scanf : Scanf) (args : List (Letter × String)) (rounds : List (Round Event))
    → All (λ (r : Round Event). All IsServed r.events) rounds
    → Ends (λ (r : Bool × LinkReceiver). Inv r.1) (main scanf args rounds)
unfolding main options
link_receiver-Inv scanf args rounds served =
    start-Ends IsFresh (λ (r : Bool × LinkReceiver). Inv r.1) (options scanf args defaults) _
      (parse-keeps IsFresh (option scanf) (option-IsFresh scanf) args defaults
        (record { none_counted = refl; no_calls = refl }))
      (λ s fresh.
        event_loop-Ends IsServed Inv (signal_handler true) event_handler signal_handler-Inv
          (λ e t q v.
            Returns-Ends (λ (r : Bool × LinkReceiver). Inv r.1) (event_handler e t)
              (event_handler-Inv e t q v))
          rounds (connect s) served (connect-Inv s fresh))
