-- ===== src/Bridge/Events.antt =====
-- The handlers of the events of the listener, the AMQP connection and the raw connection in
-- skupper-router/clients/amqp-tcp-bridge.c. A context that is freed is `none`.
use dispatch_tester.Common.{
  ℕ, String, Bool, true, false, not, ◌&&◌, if◌then◌else◌, Option, none, some, List, [], ◌∷◌, Run,
  ok, halt, assert_failed, ◌>>=◌,
}
use dispatch_tester.Proton
use dispatch_tester.Proton.Options.{Letter, opt_a, opt_i, opt_s, parse}
use dispatch_tester.Bridge.{
  Context, Reads, emit, slots_full, slots_empty, raw_write_drain, raw_send, on_wake, on_delivery,
}

-- The credit for a new link.
abbrev credit_window : ℕ
credit_window = 1000

-- PN_LISTENER_ACCEPT: the context of a new connection; `calloc` clears it.
unfoldable pub on_accept : Context
on_accept = record {
  amqp_conn = true;
  amqp_link = false;
  raw_conn = false;
  producer_slot = 0;
  consumer_slot = 0;
  buffers = λ k. [];
  calls = [];
}

unfoldable pub connect_raw : Context → Context
connect_raw s = record s { raw_conn = true; calls = Proton.raw_connect ∷ s.calls }

-- A new link comes with its target.
pub data AmqpEvent : Type 0 where
  connection_init : String → AmqpEvent  -- with the global `container_name`
  connection_remote_open session_remote_open : AmqpEvent
  link_remote_open : String → AmqpEvent
  connection_remote_close session_remote_close link_remote_close link_flow : AmqpEvent
  delivery connection_wake : Reads → AmqpEvent
  unhandled : AmqpEvent

-- PN_LINK_REMOTE_OPEN. An extra link is closed, and then taken all the same. The test
-- `if (pn_link_is_receiver)` names a function and always holds.
unfoldable pub on_link_open : String → Context → Context
unfolding connect_raw
on_link_open target s =
    let t : Context =
      if s.amqp_link
      then record s { calls = Proton.link_close ∷ Proton.link_open ∷ s.calls }
      else s in
    connect_raw (record t {
      amqp_link = true;
      calls =
          Proton.link_open ∷ Proton.link_flow credit_window ∷ Proton.set_target target ∷ t.calls;
    })

-- PN_CONNECTION_REMOTE_CLOSE.
unfoldable pub on_connection_close : Context → Option Context
on_connection_close s =
    if s.raw_conn
    then some (record s { amqp_conn = false; calls = Proton.connection_close ∷ s.calls })
    else none

unfoldable pub amqp_event_handler : AmqpEvent → Context → Run (Option Context)
amqp_event_handler (connection_init name) s = ok (some (emit (Proton.set_container name) s))
amqp_event_handler connection_remote_open s = ok (some (emit Proton.connection_open s))
amqp_event_handler session_remote_open s = ok (some (emit Proton.session_open s))
amqp_event_handler (link_remote_open target) s = ok (some (on_link_open target s))
amqp_event_handler connection_remote_close s = ok (on_connection_close s)
amqp_event_handler session_remote_close s =
    ok (some (record s { calls = Proton.session_free ∷ Proton.session_close ∷ s.calls }))
amqp_event_handler link_remote_close s =
    ok (
      some (record s { amqp_link = false; calls = Proton.link_free ∷ Proton.link_close ∷ s.calls }))
amqp_event_handler (delivery r) s = on_delivery r s >>= λ t. ok (some t)
amqp_event_handler (connection_wake r) s = on_wake r s >>= λ t. ok (some t)
amqp_event_handler _ s = ok (some s)

-- The events of the raw connection: whether it has gone, what it has written, and what it can take.
pub data RawEvent : Type 0 where
  disconnected : RawEvent
  raw : List ℕ → ℕ → RawEvent

-- What follows the writing in `raw_event_handler`.
unfoldable pub after_sending : Bool → Context → Context
after_sending was_full s =
    if slots_empty s && not s.amqp_link
    then emit Proton.raw_close s
    else if was_full && not (slots_full s)
    then (if s.amqp_conn then emit Proton.connection_wake s else s)
    else s

-- PN_RAW_CONNECTION_DISCONNECTED.
unfoldable pub on_disconnected : Context → Option Context
on_disconnected s =
    if s.amqp_conn
    then some (record s { raw_conn = false; calls = Proton.connection_close ∷ s.calls })
    else none

unfoldable pub raw_event_handler : RawEvent → Context → Run (Option Context)
raw_event_handler disconnected s = ok (on_disconnected s)
raw_event_handler (raw taken avail) s =
    if s.raw_conn
    then (raw_write_drain taken s >>= λ t.
        ok (some (after_sending (slots_full s) (raw_send avail t))))
    else halt assert_failed

-- The events of one context, in the order in which `main` takes them from the proactor.
pub data Event : Type 0 where
  amqp_event : AmqpEvent → Event
  raw_event : RawEvent → Event

unfoldable pub handle : Event → Context → Run (Option Context)
handle (amqp_event e) s = amqp_event_handler e s
handle (raw_event e) s = raw_event_handler e s

-- There are no events for a context that is freed.
unfoldable pub life : List Event → Context → Run (Option Context)
life [] s = ok (some s)
life (e ∷ es) s = handle e s >>= λ o. elim o [ none ↦ ok none | some t ↦ life es t ]

-- The addresses and the name, and the flag that ends the loop of `main`.
pub record Bridge : Type 0 where
  pub stop : Bool
  pub listener_address : String
  pub server_address : String
  pub container_name : String
  pub interrupts : List Proton.Call

unfoldable pub signal_handler : Bool → Proton.Signal → Bridge → Bridge
signal_handler proactor Proton.sigother b = b
signal_handler proactor _ b = record b {
  stop = true;
  interrupts = if proactor then Proton.wakeup ∷ b.interrupts else b.interrupts;
}

-- One option of the command line; `none` is `usage`.
unfoldable pub option : Letter → String → Bridge → Option Bridge
option opt_a arg b = some (record b { listener_address = arg })
option opt_i arg b = some (record b { container_name = arg })
option opt_s arg b = some (record b { server_address = arg })
option _ arg b = none

unfoldable pub options : List (Letter × String) → Bridge → Option Bridge
unfolding option
options = parse option
