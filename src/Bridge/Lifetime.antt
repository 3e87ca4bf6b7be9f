-- ===== src/Bridge/Lifetime.antt =====
-- How long a context of the bridge lives: as long as one of its two connections.
use dispatch_tester.Common.{
  ◌⊎◌, inl, inr, ap, if◌then◌else◌, ◌>>=◌, >>=-eq-ok, ℕ, zero, suc, ◌≡◌, Bool, true, false, ◌||◌,
  Option, none, some, List, [], ◌∷◌, ok, Ends, Ends-bind, length, Run, arith,
}
use dispatch_tester.Proton
use dispatch_tester.Bridge.{
  Context, Reads, emit, next_slot, put, slots_full, link_receive, raw_write_drain, send_slots,
  raw_send, on_wake, on_delivery, wake_raw, finish_delivery,
}
use dispatch_tester.Bridge.Ring.{Inv}
use dispatch_tester.Bridge.Events.{
  Event, amqp_event, raw_event, handle, life, on_accept, AmqpEvent, connection_init,
  connection_remote_open, session_remote_open, link_remote_open, connection_remote_close,
  session_remote_close, link_remote_close, link_flow, delivery, connection_wake, unhandled,
  RawEvent, disconnected, raw, after_sending, raw_event_handler, amqp_event_handler, on_link_open,
  on_connection_close, connect_raw, on_disconnected,
}

-- The slots are in range, and one of the connections is there.
pub record Live (s : Context) : Type 0 where
  pub ring : Inv s
  pub held : (s.amqp_conn || s.raw_conn) ≡ true

abbrev pub Kept : Option Context → Type 0
Kept none = Unit
Kept (some t) = Live t

put-Live : (chunk : List ℕ) (s : Context) → Live s → Live (put chunk s)
unfolding put next_slot
put-Live chunk s v = ground arith

link_receive-Live : (chunks : List (List ℕ)) (s : Context) → Live s → Live (link_receive chunks s).1
unfolding link_receive
link_receive-Live [] s v = v
link_receive-Live ([] ∷ chunks) s v = v
link_receive-Live ((x ∷ xs) ∷ chunks) s v =
    (ground (arith, link_receive-Live chunks (put (x ∷ xs) s) (put-Live (x ∷ xs) s v)))

raw_write_drain-Live : (taken : List ℕ) (s : Context) → Live s → Ends Live (raw_write_drain taken s)
unfolding raw_write_drain next_slot
raw_write_drain-Live [] s v = v
raw_write_drain-Live (slot ∷ taken) s v =
    (ground
      (arith, raw_write_drain-Live taken (record s { consumer_slot = next_slot s.consumer_slot })))

send_slots-Live : (avail slot : ℕ) (s : Context) → Live s → Live (send_slots avail slot s)
unfolding send_slots
send_slots-Live zero slot s v = v
send_slots-Live (suc avail) slot s v =
    (ground (
      arith,
      send_slots-Live avail (next_slot slot)
          (emit (Proton.raw_write slot (length (s.buffers slot))) s),
    ))

wake_raw-Live : (n : ℕ) (s : Context) → Live s → Live (wake_raw (n, s))
unfolding wake_raw
wake_raw-Live n s v = ground arith

finish_delivery-Live : (r : Reads) (s : Context) → Live s → Live (finish_delivery r s)
unfolding finish_delivery
finish_delivery-Live r s v = ground arith

after_sending-Live : (full : Bool) (s : Context) → Live s → Live (after_sending full s)
unfolding after_sending
after_sending-Live full s v = ground arith

-- The ring after what the raw connection has written is taken off, if there is one.
abbrev drained : Reads → Context → Run Context
drained r s = if s.raw_conn then raw_write_drain r.taken s else ok s

drained-Live : (r : Reads) (s : Context) → Live s → Ends Live (drained r s)
drained-Live r s v = (ground (arith, raw_write_drain-Live r.taken s v))

abbrev received : Reads → Context → Run Context
received r s =
    if r.pending then (drained r s >>= λ t. ok (wake_raw (link_receive r.chunks t))) else ok s

received-Live : (r : Reads) (s : Context) → Live s → Ends Live (received r s)
received-Live r s v =
    (ground (
      arith,
      Ends-bind Live Live (drained r s) (λ t. ok (wake_raw (link_receive r.chunks t)))
          (drained-Live r s v)
          (λ t h.
            wake_raw-Live (link_receive r.chunks t).0 (link_receive r.chunks t).1
              (link_receive-Live r.chunks t h)),
    ))

on_wake-Live : (r : Reads) (s : Context) → Live s → Ends Live (on_wake r s)
unfolding on_wake
on_wake-Live r s v =
    (ground (
      arith,
      Ends-bind Live Live (received r s) (λ t. ok (finish_delivery r t)) (received-Live r s v)
          (λ t h. finish_delivery-Live r t h),
    ))

-- The handlers keep a context live or free it.
pub amqp_event_handler-Live :
    (e : AmqpEvent) (s : Context) → Live s → Ends Kept (amqp_event_handler e s)
unfolding amqp_event_handler on_link_open connect_raw on_connection_close on_delivery
amqp_event_handler-Live (connection_init name) s v = ground arith
amqp_event_handler-Live connection_remote_open s v = ground arith
amqp_event_handler-Live session_remote_open s v = ground arith
amqp_event_handler-Live (link_remote_open target) s v = ground arith
amqp_event_handler-Live connection_remote_close s v = ground arith
amqp_event_handler-Live session_remote_close s v = ground arith
amqp_event_handler-Live link_remote_close s v = ground arith
amqp_event_handler-Live link_flow s v = v
amqp_event_handler-Live (delivery r) s v =
    Ends-bind Live Kept (on_delivery r s) (λ t. ok (some t)) (ground (arith, on_wake-Live r s v))
      (λ t h. h)
amqp_event_handler-Live (connection_wake r) s v =
    Ends-bind Live Kept (on_wake r s) (λ t. ok (some t)) (on_wake-Live r s v) (λ t h. h)
amqp_event_handler-Live unhandled s v = v

pub raw_event_handler-Live :
    (e : RawEvent) (s : Context) → Live s → Ends Kept (raw_event_handler e s)
unfolding raw_event_handler on_disconnected
raw_event_handler-Live disconnected s v = ground arith
raw_event_handler-Live (raw taken avail) s v =
    (ground (
      arith,
      Ends-bind Live Kept (raw_write_drain taken s)
          (λ t. ok (some (after_sending (slots_full s) (raw_send avail t))))
          (raw_write_drain-Live taken s v)
          (λ t h.
            after_sending-Live (slots_full s) (raw_send avail t)
              (unfold raw_send in send_slots-Live avail t.consumer_slot t h)),
    ))

-- An event of the AMQP connection frees the context only if it is the close of that connection and
-- there is no raw connection.
pub freed_by_amqp :
    (e : AmqpEvent) (s : Context)
    → amqp_event_handler e s ≡ ok none
    → (e ≡ connection_remote_close) × (s.raw_conn ≡ false)
unfolding amqp_event_handler on_connection_close
freed_by_amqp connection_remote_close s h = ground arith
freed_by_amqp (connection_init name) s h = ground arith
freed_by_amqp connection_remote_open s h = ground arith
freed_by_amqp session_remote_open s h = ground arith
freed_by_amqp (link_remote_open target) s h = ground arith
freed_by_amqp session_remote_close s h = ground arith
freed_by_amqp link_remote_close s h = ground arith
freed_by_amqp link_flow s h = ground arith
freed_by_amqp (delivery r) s h =
    let (t, _, e) = >>=-eq-ok (on_delivery r s) (λ (t : Context). ok (some t)) h in
    (ground (arith, e))
freed_by_amqp (connection_wake r) s h =
    let (t, _, e) = >>=-eq-ok (on_wake r s) (λ (t : Context). ok (some t)) h in (ground (arith, e))
freed_by_amqp unhandled s h = ground arith

-- An event of the raw connection frees the context only if it is its disconnection and there is no
-- AMQP connection.
pub freed_by_raw :
    (e : RawEvent) (s : Context)
    → raw_event_handler e s ≡ ok none
    → (e ≡ disconnected) × (s.amqp_conn ≡ false)
unfolding raw_event_handler on_disconnected
freed_by_raw disconnected s h = ground arith
freed_by_raw (raw taken avail) s h =
    (ground (
      arith,
      >>=-eq-ok (raw_write_drain taken s)
          (λ (t : Context). ok (some (after_sending (slots_full s) (raw_send avail t)))) {s = none},
    ))

-- An event frees the context only if it is the close of the AMQP connection and there is no raw
-- connection, or the disconnection of the raw connection and there is no AMQP connection.
pub freed :
    (e : Event) (s : Context)
    → handle e s ≡ ok none
    → ((e ≡ amqp_event connection_remote_close) × (s.raw_conn ≡ false))
      ⊎ ((e ≡ raw_event disconnected) × (s.amqp_conn ≡ false))
unfolding handle
freed (amqp_event e) s h = let (same, gone) = freed_by_amqp e s h in inl (ap amqp_event same, gone)
freed (raw_event e) s h = let (same, gone) = freed_by_raw e s h in inr (ap raw_event same, gone)

handle-Live : (e : Event) (s : Context) → Live s → Ends Kept (handle e s)
unfolding handle
handle-Live (amqp_event e) s v = amqp_event_handler-Live e s v
handle-Live (raw_event e) s v = raw_event_handler-Live e s v

-- What follows the first event.
goes_on :
    (es : List Event) (o : Option Context)
    → ((t : Context) → Live t → Ends Kept (life es t))
    → Kept o
    → Ends Kept (elim o [ none ↦ ok none | some t ↦ life es t ])
goes_on es none k h = tt
goes_on es (some t) k h = k t h

pub life_from : (es : List Event) (s : Context) → Live s → Ends Kept (life es s)
unfolding life
life_from [] s v = v
life_from (e ∷ es) s v =
    Ends-bind Kept Kept (handle e s) _ (handle-Live e s v) (λ o h. (goes_on es o (life_from es) h))

-- From the acceptance of a connection on, whatever the events of the AMQP and the raw connection
-- are, a context that is not freed has its slots in range and at least one of its two connections.
pub life-Live : (es : List Event) → Ends Kept (life es on_accept)
unfolding on_accept
life-Live es = (life_from es on_accept (ground arith))
