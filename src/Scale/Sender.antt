-- ===== src/Scale/Sender.antt =====
-- clients/scale/src/sender.c: sends a number of messages, all alike, and waits until they are dealt with.
pub mod Flow
pub mod Main
mod Examples
use dispatch_tester.Common.{
  ℕ, zero, suc, ◌+◌, ◌-◌, String, Bool, true, false, not, ◌&&◌, if◌then◌else◌, ltb, ◌==◌, Option,
  none, some, List, [], ◌∷◌, ℤ, pos, negsuc, ◌-ℤ◌,
}
use dispatch_tester.Proton
use dispatch_tester.Scale.{close_all}

-- `app_data_t`, with the tag generator. `acked` counts down, also below zero.
pub record AppData : Type 0 where
  pub count : ℕ
  pub anon : Bool
  pub presettled : Bool
  pub acked : ℤ
  pub target : String
  pub msg_len : ℕ  -- an `int`, as the library gets it: converted to `size_t`
  pub tag : ℕ
  pub calls : List Proton.Call

-- A flow comes with the credit, a delivery with whether it was updated and its remote state, if any.
pub data Event : Type 0 where
  connection_init : Event
  link_flow : ℕ → Event
  delivery : Bool → Option Proton.Disposition → Event
  unhandled : Event

-- PN_CONNECTION_INIT.
unfoldable pub on_init : AppData → AppData
on_init s =
    let opened : List Proton.Call =
      Proton.sender_new ∷ Proton.session_open ∷ Proton.connection_open ∷ s.calls in
    let aimed : List Proton.Call = if s.anon then opened else Proton.set_target s.target ∷ opened in
    record s { calls = Proton.link_open ∷ aimed }

-- One round of the send loop. The last message is not settled, so that it is acknowledged.
unfoldable pub send_one : AppData → AppData
send_one s =
    let sent : AppData = record s {
      count = s.count - 1;
      tag = s.tag + 1;
      calls =
          Proton.link_advance
          ∷ Proton.link_send s.msg_len
          ∷ Proton.delivery_new (s.tag + 1)
          ∷ s.calls;
    } in
    if sent.presettled && ltb 0 sent.count
    then record sent { calls = Proton.delivery_settle ∷ sent.calls }
    else sent

-- `while (credit > 0 && data->count > 0)`.
unfoldable pub send_loop : ℕ → AppData → AppData
send_loop zero s = s
send_loop (suc credit) s =
    let rest : AppData = send_loop credit (send_one s) in if ltb 0 s.count then rest else s

-- Any state but PN_RECEIVED ends a delivery.
unfoldable pub settle : Proton.Disposition → AppData → AppData
settle Proton.received s = s
settle _ s = record s { acked = s.acked -ℤ pos 1; calls = Proton.delivery_settle ∷ s.calls }

abbrev pub is_zero : ℤ → Bool
is_zero (pos n) = n == 0
is_zero (negsuc n) = false

-- PN_DELIVERY.
unfoldable pub on_delivery : Bool → Option Proton.Disposition → AppData → AppData
unfolding settle
on_delivery true (some rs) s =
    let t : AppData = settle rs s in
    if is_zero t.acked then record t { calls = close_all t.calls } else t
on_delivery _ _ s = s

unfoldable pub event_handler : Event → AppData → AppData
event_handler connection_init s = on_init s
event_handler (link_flow credit) s = send_loop credit s
event_handler (delivery updated rs) s = on_delivery updated rs s
event_handler unhandled s = s

-- The events that `pn_reactor_process` dispatches, in their order.
unfoldable pub run : List Event → AppData → AppData
run [] s = s
run (e ∷ es) s = run es (event_handler e s)
