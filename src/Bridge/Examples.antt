-- ===== src/Bridge/Examples.antt =====
-- The ring of the bridge with two chunks in it, over the end of the array.
use dispatch_tester.Common.{
  ◌⊎◌, if◌then◌else◌, ℕ, ◌+◌, ◌≡◌, refl, true, false, List, [], ◌∷◌, ◌++◌, drop, ok, ◌==◌, arith,
}
use dispatch_tester.Common.{none, Bool, Ends}
use dispatch_tester.Bridge.{wake_raw, finish_delivery, send_slots, on_wake}
use dispatch_tester.Bridge.Events.{
  connection_remote_open, link_remote_open, connection_remote_close, connection_wake, raw,
  disconnected, amqp_event, raw_event, Event, life, handle, on_accept, amqp_event_handler,
  raw_event_handler, on_link_open, connect_raw, on_connection_close, on_disconnected, after_sending,
}
use dispatch_tester.Proton.Options.{opt_s}
use dispatch_tester.Bridge.Lifetime.{freed}
use dispatch_tester.Bridge.Main.{
  Contexts, Wait, listener_batch, listener_accept, amqp_batch, raw_batch, main,
}
use dispatch_tester.Bridge.Serve.{AllKept, bridge-AllKept}
use dispatch_tester.Bridge.Fifo.{next}
use dispatch_tester.Proton
use dispatch_tester.Bridge.{
  Context, next_slot, slots_full, slots_empty, put, link_receive, raw_write_drain, raw_send,
}
use dispatch_tester.Bridge.Ring.{Inv, used, queue, slots_from, raw_write_drain-queue}
use dispatch_tester.Bridge.Twice.{raw_send-twice}

abbrev context : Context
context = record {
  amqp_conn = true;
  amqp_link = true;
  raw_conn = true;
  producer_slot = 1;
  consumer_slot = 127;
  buffers = λ k. if k == 127 then 7 ∷ 8 ∷ [] else 9 ∷ [];
  calls = [];
}

context-Inv : Inv context
context-Inv = ground arith

room : slots_full context ≡ false
unfolding slots_full next_slot
room = refl

data_left : slots_empty context ≡ false
unfolding slots_empty
data_left = refl

raw_write_drain-queue_example :
    (t : Context) × (raw_write_drain (slots_from 127 1) context ≡ ok t)
    × Inv t
    × (used t + 1 ≡ used context)
    × (queue t ≡ drop 1 (queue context))
raw_write_drain-queue_example = (raw_write_drain-queue 1 context context-Inv (omega arith))

raw_send-twice_example :
    (later : List ℕ) × (between : List ℕ) × (Proton.written_slots
        (raw_send 4 (raw_send 3 context)).calls
      ≡ later ++ 127 ∷ (between ++ 127 ∷ []))
raw_send-twice_example = (raw_send-twice 2 3 context data_left)

-- A connection that brings a link, a chunk of data, and ends.
abbrev events : List Event
events =
    amqp_event connection_remote_open
    ∷ amqp_event (link_remote_open "queue")
    ∷ amqp_event (
        connection_wake (record {
          current = true;
          pending = true;
          chunks = (4 ∷ []) ∷ [];
          taken = [];
          pending_after = false;
          partial_after = false;
        }))
    ∷ raw_event (raw [] 4)
    ∷ raw_event (raw (0 ∷ []) 4)
    ∷ amqp_event connection_remote_close
    ∷ raw_event disconnected
    ∷ []

-- Two connections, and a signal.
abbrev waits : List Wait
waits =
    record { signal = false; batch = listener_batch (listener_accept 0 ∷ listener_accept 1 ∷ []) }
    ∷ record {
      signal = false;
      batch = amqp_batch 1 (connection_remote_open ∷ link_remote_open "queue" ∷ []);
    }
    ∷ record { signal = false; batch = raw_batch 1 (raw [] 4 ∷ disconnected ∷ []) }
    ∷ record { signal = true; batch = amqp_batch 0 (connection_remote_close ∷ []) }
    ∷ []

bridge-AllKept_example :
    Ends (λ (r : Bool × Contexts). AllKept r.1) (main ((opt_s, "localhost:20002") ∷ []) waits)
bridge-AllKept_example = bridge-AllKept ((opt_s, "localhost:20002") ∷ []) waits

-- Three chunks come in, of which one goes out.
abbrev streamed : List Event
streamed =
    amqp_event (link_remote_open "queue")
    ∷ amqp_event (
        connection_wake (record {
          current = true;
          pending = true;
          chunks = (4 ∷ []) ∷ (5 ∷ 6 ∷ []) ∷ (7 ∷ []) ∷ [];
          taken = [];
          pending_after = false;
          partial_after = false;
        }))
    ∷ raw_event (raw [] 4)
    ∷ raw_event (raw (0 ∷ []) 4)
    ∷ []

abbrev after : Context
after = next (life streamed on_accept) on_accept

-- At the end the context is freed.
ends_freed : life events on_accept ≡ ok none
unfolding life handle amqp_event_handler on_link_open connect_raw on_wake link_receive put next_slot
    slots_full slots_empty wake_raw finish_delivery raw_event_handler raw_write_drain raw_send
    send_slots after_sending on_connection_close on_disconnected on_accept
ends_freed = refl

abbrev alone : Context
alone = record context { raw_conn = false }

abbrev closed : Context
closed = record context { amqp_conn = false }

freed_example :
    ((amqp_event connection_remote_close ≡ amqp_event connection_remote_close)
      × (alone.raw_conn ≡ false))
    ⊎ ((amqp_event connection_remote_close ≡ raw_event disconnected) × (alone.amqp_conn ≡ false))
freed_example =
    freed (amqp_event connection_remote_close) alone
      (unfold handle amqp_event_handler on_connection_close in refl)
