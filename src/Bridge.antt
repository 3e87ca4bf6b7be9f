-- ===== src/Bridge.antt =====
-- skupper-router/clients/amqp-tcp-bridge.c: a ring of buffers between an AMQP link and a TCP connection.
-- The source names some fields in two ways (`slots` and `buffers`, `amqp_connection` and `amqp_conn`);
-- each pair is read as one field.
mod Ring
mod Twice
mod Receive
mod Events
mod Lifetime
mod Stream
mod Fifo
pub mod Main
mod Serve
mod Examples
use dispatch_tester.Common.{
  ℕ, zero, suc, ◌+◌, ◌%◌, Bool, true, false, not, ◌&&◌, if◌then◌else◌, ltb, ◌==◌, List, [], ◌∷◌,
  length, Run, ok, halt, assert_failed, ◌>>=◌,
}
use dispatch_tester.Proton

abbrev pub slot_count : ℕ
slot_count = 128

-- `buffers k` are the octets in slot `k`.
pub record Context : Type 0 where
  pub amqp_conn : Bool  -- whether the pointer is set
  pub amqp_link : Bool
  pub raw_conn : Bool
  pub producer_slot : ℕ
  pub consumer_slot : ℕ
  pub buffers : ℕ → List ℕ
  pub calls : List Proton.Call

abbrev pub emit : Proton.Call → Context → Context
emit c s = record s { calls = c ∷ s.calls }

unfoldable pub next_slot : ℕ → ℕ
next_slot slot = (slot + 1) % slot_count

unfoldable pub slots_full : Context → Bool
unfolding next_slot
slots_full s = next_slot s.producer_slot == s.consumer_slot

unfoldable pub slots_empty : Context → Bool
slots_empty s = s.producer_slot == s.consumer_slot

-- A received chunk goes to the producer's slot.
unfoldable pub put : List ℕ → Context → Context
unfolding next_slot
put data' s = record s {
  buffers = λ k. if k == s.producer_slot then data' else s.buffers k;
  producer_slot = next_slot s.producer_slot;
}

-- `chunks` are the answers of `pn_link_recv` while the delivery has octets pending: an empty one is an
-- error, the end, or no data for now. The result counts the slots that were filled.
unfoldable pub link_receive : List (List ℕ) → Context → ℕ × Context
link_receive [] s = (0, s)
link_receive ([] ∷ chunks) s = (0, s)
link_receive ((x ∷ xs) ∷ chunks) s =
    let (written, t) = link_receive chunks (put (x ∷ xs) s) in
    if slots_full s then (0, s) else (written + 1, t)

-- `taken` are the contexts of the buffers that the raw connection has written. That there is a raw
-- connection, which the source asserts at the start, is checked by the callers.
unfoldable pub raw_write_drain : List ℕ → Context → Run Context
raw_write_drain [] s = ok s
raw_write_drain (slot ∷ taken) s =
    let rest : Run Context =
      raw_write_drain taken (record s { consumer_slot = next_slot s.consumer_slot }) in
    if slot == s.consumer_slot then rest else halt assert_failed

-- `while (avail && slot != context->producer_slot)`.
unfoldable pub send_slots : ℕ → ℕ → Context → Context
send_slots zero slot s = s
send_slots (suc avail) slot s =
    let rest : Context =
      send_slots avail (next_slot slot)
        (emit (Proton.raw_write slot (length (s.buffers slot))) s) in
    if slot == s.producer_slot then s else rest

unfoldable pub raw_send : ℕ → Context → Context
unfolding send_slots
raw_send avail s = send_slots avail s.consumer_slot s

-- What a delivery finds: whether it is the link's current one, octets pending before and after, partial.
pub record Reads : Type 0 where
  pub current : Bool
  pub pending : Bool
  pub chunks : List (List ℕ)
  pub taken : List ℕ
  pub pending_after : Bool
  pub partial_after : Bool

-- The end of a delivery: it is accepted and a credit is given back.
unfoldable pub finish_delivery : Reads → Context → Context
finish_delivery r s =
    if not r.pending_after && not r.partial_after
    then record s {
      calls =
          Proton.link_flow 1
          ∷ Proton.delivery_settle
          ∷ Proton.delivery_update Proton.accepted
          ∷ s.calls;
    }
    else s

-- New data wakes the raw connection.
unfoldable pub wake_raw : ℕ × Context → Context
wake_raw (written, s) = if ltb 0 written && s.raw_conn then emit Proton.raw_wake s else s

-- PN_CONNECTION_WAKE, and PN_DELIVERY behind its assertion.
unfoldable pub on_wake : Reads → Context → Run Context
on_wake r s =
    let drained : Run Context = if s.raw_conn then raw_write_drain r.taken s else ok s in
    let received : Run Context =
      if r.pending then (drained >>= λ t. ok (wake_raw (link_receive r.chunks t))) else ok s in
    if s.amqp_link then (received >>= λ t. ok (finish_delivery r t)) else ok s

unfoldable pub on_delivery : Reads → Context → Run Context
on_delivery r s = if r.current then on_wake r s else halt assert_failed
