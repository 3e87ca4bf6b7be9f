-- ===== src/Bridge/Main.antt =====
-- `main` of skupper-router/clients/amqp-tcp-bridge.c: the batches of the proactor, each for one connection
-- or for the listener, and the contexts of all connections.
use dispatch_tester.Common.{
  ℕ, String, Bool, true, false, if◌then◌else◌, Option, none, some, List, [], ◌∷◌, map, store, Run,
  ok, ◌>>=◌,
}
use dispatch_tester.Proton
use dispatch_tester.Proton.Options.{Letter}
use dispatch_tester.Proton.Program.{start}
use dispatch_tester.Bridge.{Context}
use dispatch_tester.Bridge.Events.{
  Bridge, signal_handler, options, on_accept, AmqpEvent, RawEvent, Event, amqp_event, raw_event,
  life,
}

-- `contexts k` is the context of connection `k`, `none` before it is accepted and after it is freed.
abbrev pub Contexts : Type 0
Contexts = ℕ → Option Context

pub data ListenerEvent : Type 0 where
  listener_open listener_close : ListenerEvent
  listener_accept : ℕ → ListenerEvent
  listener_other : ListenerEvent

pub data Batch : Type 0 where
  amqp_batch : ℕ → List AmqpEvent → Batch
  raw_batch : ℕ → List RawEvent → Batch
  listener_batch : List ListenerEvent → Batch
  proactor_batch : Batch

unfoldable pub listener_event_handler : ListenerEvent → Contexts → Contexts
listener_event_handler (listener_accept k) f = store f k (some on_accept)
listener_event_handler _ f = f

unfoldable pub accept_all : List ListenerEvent → Contexts → Contexts
accept_all [] f = f
accept_all (e ∷ es) f = accept_all es (listener_event_handler e f)

-- The events of a connection, on its context.
unfoldable pub on_context : ℕ → List Event → Contexts → Run Contexts
on_context k es f = elim (f k) [ none ↦ ok f | some s ↦ life es s >>= λ o. ok (store f k o) ]

unfoldable pub on_batch : Batch → Contexts → Run Contexts
on_batch (amqp_batch k es) f = on_context k (map amqp_event es) f
on_batch (raw_batch k es) f = on_context k (map raw_event es) f
on_batch (listener_batch es) f = ok (accept_all es f)
on_batch proactor_batch f = ok f

-- What one call of `pn_proactor_wait` brings: whether a signal came in, and the batch.
pub record Wait : Type 0 where
  pub signal : Bool
  pub batch : Batch

-- `do … while (!stop)`: the Boolean says whether the loop was left.
unfoldable pub serve : List Wait → Bridge → Contexts → Run (Bool × Contexts)
serve [] b f = ok (false, f)
serve (w ∷ ws) b f =
    let c : Bridge = if w.signal then signal_handler true Proton.sigint b else b in
    on_batch w.batch f >>= λ g. elim c.stop [ true ↦ ok (true, g) | false ↦ serve ws c g ]

-- The globals at the start.
abbrev pub defaults : Bridge
defaults = record {
  stop = false;
  listener_address = "0.0.0.0:5672";
  server_address = "localhost:20002";
  container_name = "AmqpTcpBridge";
  interrupts = [];
}

unfoldable pub main : List (Letter × String) → List Wait → Run (Bool × Contexts)
main args waits = start (options args defaults) (λ b. serve waits b (λ k. none))
