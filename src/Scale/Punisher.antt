-- ===== src/Scale/Punisher.antt =====
-- clients/scale/src/punisher.c: sends messages as fast as it can, a number of them or without end.
mod Flow
pub mod Main
mod Examples
use dispatch_tester.Common.{
  ℕ, zero, suc, ◌+◌, ◌-◌, String, Bool, true, false, not, ◌&&◌, ◌||◌, if◌then◌else◌, ltb, ◌==◌,
  Option, none, some, List, [], ◌∷◌,
}
use dispatch_tester.Proton
use dispatch_tester.Scale.{close_all}

-- `app_data_t`, with the tag generator.
pub record AppData : Type 0 where
  pub count : ℕ
  pub anon : Bool
  pub presettle : Bool
  pub sent : ℕ
  pub acked : ℕ
  pub target : String
  pub msg_len : ℕ  -- an `int`, as the library gets it: converted to `size_t`
  pub tag : ℕ
  pub calls : List Proton.Call

-- A flow comes with the credit, a delivery with whether it was updated and its remote state, if any.
pub data Event : Type 0 where
  connection_init : Event
  link_flow : ℕ → Event
  delivery : Bool → Option Proton.Disposition → Event
  unhandled : Event

-- PN_CONNECTION_INIT.
unfoldable pub on_init : AppData → AppData
on_init s =
    let opened : List Proton.Call =
      Proton.sender_new ∷ Proton.session_open ∷ Proton.connection_open ∷ s.calls in
    let aimed : List Proton.Call = if s.anon then opened else Proton.set_target s.target ∷ opened in
    record s { calls = Proton.link_open ∷ aimed }

-- One round of the send loop.
unfoldable pub send_one : AppData → AppData
send_one s =
    let sent : AppData = record s {
      sent = s.sent + 1;
      tag = s.tag + 1;
      calls =
          Proton.link_advance
          ∷ Proton.link_send s.msg_len
          ∷ Proton.delivery_new (s.tag + 1)
          ∷ s.calls;
    } in
    if sent.presettle then record sent { calls = Proton.delivery_settle ∷ sent.calls } else sent

-- `data->count == 0 || data->sent < data->count`.
abbrev pub may_send : AppData → Bool
may_send s = s.count == 0 || ltb s.sent s.count

unfoldable pub send_loop : ℕ → AppData → AppData
send_loop zero s = s
send_loop (suc credit) s =
    let rest : AppData = send_loop credit (send_one s) in if may_send s then rest else s

-- An unknown state is counted, but the delivery is not settled.
unfoldable pub settle : Proton.Disposition → AppData → AppData
settle Proton.received s = s
settle Proton.other s = record s { acked = s.acked + 1 }
settle _ s = record s { acked = s.acked + 1; calls = Proton.delivery_settle ∷ s.calls }

-- PN_DELIVERY.
unfoldable pub on_delivery : Bool → Option Proton.Disposition → AppData → AppData
unfolding settle
on_delivery true (some rs) s =
    let t : AppData = settle rs s in
    if t.count == t.sent && t.acked == t.sent then record t { calls = close_all t.calls } else t
on_delivery _ _ s = s

unfoldable pub event_handler : Event → AppData → AppData
event_handler connection_init s = on_init s
event_handler (link_flow credit) s = send_loop credit s
event_handler (delivery updated rs) s = on_delivery updated rs s
event_handler unhandled s = s

-- The events that one call of `pn_reactor_process` dispatches, in their order.
unfoldable pub run : List Event → AppData → AppData
run [] s = s
run (e ∷ es) s = run es (event_handler e s)

-- The body of the `while (pn_reactor_process(reactor))` loop, after such a call.
unfoldable pub main_round : AppData → AppData
main_round s =
    if s.presettle && s.sent == s.count
    then record s { calls = Proton.connection_close ∷ s.calls }
    else s

-- The loop itself, over the events of each call.
unfoldable pub main_loop : List (List Event) → AppData → AppData
main_loop [] s = s
main_loop (es ∷ rounds) s = main_loop rounds (main_round (run es s))
