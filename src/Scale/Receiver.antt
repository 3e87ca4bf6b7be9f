-- ===== src/Scale/Receiver.antt =====
-- clients/scale/src/receiver.c: receives a number of messages, or without end, and closes.
pub mod Flow
pub mod Main
mod Examples
use dispatch_tester.Common.{
  ℕ, zero, suc, ◌+◌, ◌-◌, ◌/◌, String, Bool, true, false, not, ◌&&◌, if◌then◌else◌, ltb, ◌==◌,
  Option, none, some, List, [], ◌∷◌, ℤ, word64,
}
use dispatch_tester.Proton
use dispatch_tester.Scale.{close_all}

-- `app_data_t`, with the flag for what is printed.
pub record AppData : Type 0 where
  pub count : ℕ
  pub credit : ℕ
  pub source : String
  pub quiet : Bool
  pub calls : List Proton.Call

abbrev pub max_size : ℕ
max_size = 512

-- What a PN_DELIVERY finds: `recv` is the answer of `pn_link_recv`, `settled` is whether the peer has
-- settled the delivery, and `credit` is that of the link once the delivery is settled here.
pub record Delivery : Type 0 where
  pub readable : Bool
  pub partial : Bool
  pub pending : ℕ
  pub recv : ℤ
  pub settled : Bool
  pub credit : ℕ

pub data Event : Type 0 where
  connection_init : Event
  delivery : Delivery → Event
  unhandled : Event

-- PN_CONNECTION_INIT.
unfoldable pub on_init : AppData → AppData
on_init s = record s {
  calls =
      Proton.link_flow s.credit
      ∷ Proton.link_open
      ∷ Proton.set_source s.source
      ∷ Proton.receiver_new
      ∷ Proton.session_open
      ∷ Proton.connection_open
      ∷ s.calls;
}

-- The length that the decoder is given for a text to print: what was received, as a `size_t`.
unfoldable pub decoded_size : Delivery → AppData → Option ℕ
decoded_size d s = if not s.quiet && ltb d.pending max_size then some (word64 d.recv) else none

-- The delivery is accepted, unless the peer has settled it, and done with.
unfoldable pub acknowledge : Delivery → AppData → AppData
acknowledge d s = record s {
  calls =
      Proton.delivery_settle
      ∷ Proton.link_advance
      ∷ (if d.settled then s.calls else Proton.delivery_update Proton.accepted ∷ s.calls);
}

-- Below half of the window the credit is filled up.
unfoldable pub grant : Delivery → AppData → AppData
grant d s =
    if ltb d.credit (s.credit / 2)
    then record s { calls = Proton.link_flow (s.credit - d.credit) ∷ s.calls }
    else s

-- `if (data->count && --data->count == 0)`.
unfoldable pub count_down : AppData → AppData
count_down s =
    let t : AppData = record s { count = s.count - 1 } in
    if s.count == 0 then s else if t.count == 0 then record t { calls = close_all t.calls } else t

-- PN_DELIVERY.
unfoldable pub on_delivery : Delivery → AppData → AppData
unfolding acknowledge grant count_down
on_delivery d s = if d.readable && not d.partial then count_down (grant d (acknowledge d s)) else s

unfoldable pub event_handler : Event → AppData → AppData
event_handler connection_init s = on_init s
event_handler (delivery d) s = on_delivery d s
event_handler unhandled s = s

-- The events that `pn_reactor_process` dispatches, in their order.
unfoldable pub run : List Event → AppData → AppData
run [] s = s
run (e ∷ es) s = run es (event_handler e s)
