-- ===== src/Clogger/Framing.antt =====
-- What the clogger writes: complete frames of messages, and never two messages at once.
use dispatch_tester.Common.{
  Returns, Returns-bind, ℕ, u32, ◌∷◌, ◌+◌, ◌*◌, ◌≤◌, ◌<◌, ◌^◌, ◌≡◌, refl, Bool, true, false,
  if◌then◌else◌, u64, ℤ, pos, count_if, sum_of, ok, arith,
}
use dispatch_tester.Proton
use dispatch_tester.Clogger.{
  Clogger, Event, header_size, length_size, chunk_size, finish_message, on_delivery, on_init,
  write_header, start_message, send_message_data, start_and_pause, on_flow, after_chunk, on_wake,
  event_handler, connection_init, connection_remote_open, link_flow, transport, delivery,
  proactor_timeout, connection_wake, proactor_inactive, unhandled, may_send,
}

-- The octets of one message: header, length and body.
abbrev pub message_size : Clogger → ℕ
message_size s = header_size + length_size + s.body_length

-- The octets of the message in the making.
abbrev pub in_flight : Clogger → ℕ
in_flight s = if s.pn_dlv then header_size + length_size + s.bytes_sent else 0

pub record Inv (s : Clogger) : Type 0 where
  pub word : s.body_length < 2 ^ 32
  pub within : s.bytes_sent ≤ s.body_length
  pub sent_counted : s.sent ≡ u64 (count_if Proton.is_advance s.calls)
  pub framed :
      sum_of Proton.octets s.calls
      ≡ count_if Proton.is_advance s.calls * message_size s + in_flight s
  pub tallied : s.acked ≡ u64 (s.accepted + s.not_accepted)
  pub limit_word : s.limit < 2 ^ 64
  pub bounded : 0 < s.limit → s.sent ≤ s.limit
  pub busy : s.pn_dlv ≡ true → 0 < s.limit → s.sent < s.limit

-- What the library documents of `pn_link_send` on a link with credit: it takes all that it is given.
abbrev pub Accepts : (ℕ → ℤ) → Type 0
Accepts rc = (n : ℕ) → rc n ≡ pos n

on_delivery-Inv :
    (updated : Bool) (rs : Proton.Disposition) (s : Clogger)
    → Inv s
    → Inv (on_delivery updated rs s)
unfolding on_delivery
on_delivery-Inv updated rs s v = ground arith

on_init-Inv : (s : Clogger) → Inv s → Inv (on_init s)
unfolding on_init
on_init-Inv s v = ground arith

one_more : (c b : ℕ) → (1 + c) * (12 + 4 + b) ≡ c * (12 + 4 + b) + (12 + 4 + b)
one_more c b = omega arith

-- A finished message leaves no delivery; an unfinished one leaves the state.
finish_message-Inv :
    (s : Clogger)
    → Inv s
    → s.pn_dlv ≡ true
    → Inv (finish_message s).1
      × (((finish_message s).0 ≡ true) → ((finish_message s).1.pn_dlv ≡ false))
unfolding finish_message
finish_message-Inv s v d =
    (ground (arith, one_more (count_if Proton.is_advance s.calls) s.body_length))

module _ (rc : ℕ → ℤ) (law : Accepts rc) where
  write_header-Inv :
      (s : Clogger) → Inv s → s.pn_dlv ≡ false → may_send s ≡ true → Returns Inv (write_header rc s)
  unfolding write_header
  write_header-Inv s v d m = (ground (arith, law header_size, law length_size))

  start_and_pause-Inv :
      (s : Clogger)
      → Inv s
      → s.pn_dlv ≡ false
      → may_send s ≡ true
      → Returns Inv (start_and_pause rc s)
  unfolding start_and_pause start_message
  start_and_pause-Inv s v d m = (ground (arith, write_header-Inv s v d m))

  on_flow-Inv : (credit : ℕ) (s : Clogger) → Inv s → Returns Inv (on_flow rc credit s)
  unfolding on_flow
  on_flow-Inv credit s v = (ground (arith, start_and_pause-Inv s v))

  -- What a chunk leaves: the accounts, and no delivery if the result is `true`.
  abbrev Chunked : Bool × Clogger → Type 0
  Chunked r = Inv r.1 × ((r.0 ≡ true) → (r.1.pn_dlv ≡ false))

  chunk :
      (s : Clogger)
      → Inv s
      → s.pn_dlv ≡ true
      → s.bytes_sent < s.body_length
      → Inv (record s {
        bytes_sent = u32 (s.bytes_sent + chunk_size s);
        calls = Proton.link_send (chunk_size s) ∷ s.calls;
      })
  unfolding chunk_size
  chunk s v d h = ground arith

  send_message_data-Chunked : (s : Clogger) → Inv s → Returns Chunked (send_message_data rc s)
  unfolding send_message_data
  send_message_data-Chunked s v =
      (ground (
        arith,
        law (chunk_size s),
        finish_message-Inv s v,
        chunk s v,
        finish_message-Inv (record s {
          bytes_sent = u32 (s.bytes_sent + chunk_size s);
          calls = Proton.link_send (chunk_size s) ∷ s.calls;
        }),
      ))

  after_chunk-Inv :
      (credit : ℕ) (r : Bool × Clogger) → Chunked r → Returns Inv (after_chunk rc credit r)
  unfolding after_chunk
  after_chunk-Inv credit (false, t) h = ground arith
  after_chunk-Inv credit (true, t) h = (ground (arith, start_and_pause-Inv t h.0 (h.1 refl)))

  -- With a library that takes what it is given, every event is handled without an abort, and the octets
  -- written so far are whole messages and the part of the one in the making.
  pub event_handler-Inv :
      (e : Event) (s : Clogger)
      → Inv s
      → Returns (λ (r : Bool × Clogger). Inv r.1) (event_handler rc e s)
  unfolding event_handler
  event_handler-Inv connection_init s v = on_init-Inv s v
  event_handler-Inv (connection_remote_open rmf) s v = ground arith
  event_handler-Inv (link_flow credit) s v =
      Returns-bind Inv (λ (r : Bool × Clogger). Inv r.1) (on_flow rc credit s) (λ t. ok (false, t))
        (on_flow-Inv credit s v) (λ t h. h)
  event_handler-Inv (delivery updated rs) s v = on_delivery-Inv updated rs s v
  event_handler-Inv proactor_timeout s v = ground arith
  event_handler-Inv (connection_wake credit) s v =
      Returns-bind Inv (λ (r : Bool × Clogger). Inv r.1) (on_wake rc credit s) (λ t. ok (false, t))
        (unfold on_wake in
          Returns-bind Chunked Inv (send_message_data rc s) (after_chunk rc credit)
            (send_message_data-Chunked s v) (after_chunk-Inv credit))
        (λ t h. h)
  event_handler-Inv proactor_inactive s v = v
  event_handler-Inv transport s v = v
  event_handler-Inv unhandled s v = v
