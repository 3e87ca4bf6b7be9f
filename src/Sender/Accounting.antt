-- ===== src/Sender/Accounting.antt =====
-- What the counters of the benchmark sender say of the calls that it made.
use dispatch_tester.Common.{
  ℕ, zero, suc, ◌+◌, ◌≤◌, ◌<◌, ◌^◌, ◌≡◌, Bool, true, false, Bool-cases, inl, inr, u64, count_if, ok,
  >>=-eq-ok, ltb, ◌&&◌, List, [], ◌∷◌, All, arith,
}
use dispatch_tester.Proton.Message.{Message, Encoded, encode_loop, encode_fuel}
use dispatch_tester.Proton.Clock.{Timespec}
use dispatch_tester.Proton
use dispatch_tester.Sender.{
  Sender, FlowReads, AckReads, Event, connection_init, link_flow, delivery, unhandled, may_send,
  end_stall, on_delivery, message, buffer_size, keep_encoded, open_endpoints, before_sending,
  after_sending, generate_message, encode_if, next_delivery, write_out, send_one, send_loop,
  on_flow, on_init, event_handler, run,
}

-- Each message that is counted was given one delivery, written once and completed once; each
-- acknowledgement is counted as accepted or not; no more is sent than asked for; the globals for the
-- endpoints are null.
pub record Inv (s : Sender) : Type 0 where
  pub sent : s.count ≡ u64 (count_if Proton.is_send s.calls)
  pub tagged : s.tag ≡ count_if Proton.is_delivery s.calls
  pub written : count_if Proton.is_send s.calls ≡ count_if Proton.is_delivery s.calls
  pub advanced : count_if Proton.is_advance s.calls ≡ count_if Proton.is_delivery s.calls
  pub tallied : s.acked ≡ u64 (s.accepted + s.not_accepted)
  pub word : s.limit < 2 ^ 64
  pub bounded : 0 < s.limit → s.count ≤ s.limit
  pub no_link : s.pn_link ≡ false
  pub no_session : s.pn_ssn ≡ false

pub on_delivery-Inv :
    (updated : Bool) (rs : Proton.Disposition) (now : AckReads) (s : Sender)
    → Inv s
    → Inv (on_delivery updated rs now s)
unfolding on_delivery
on_delivery-Inv updated rs now s v = ground arith

end_stall-Inv : (end : Timespec) (s : Sender) → Inv s → Inv (end_stall end s)
unfolding end_stall
end_stall-Inv end s v = ground arith

write_out-Inv :
    (s : Sender) (buffer len : ℕ) (made : Bool)
    → Inv s
    → may_send s ≡ true
    → Inv (
        write_out (record (next_delivery s) {
          encode_buffer = made;
          encode_buffer_size = buffer;
          encoded_data_size = len;
        }))
unfolding write_out next_delivery
write_out-Inv s buffer len made v m = ground arith

-- The event is not PN_CONNECTION_INIT, which comes once and first.
abbrev pub IsLater : Event → Type 0
IsLater (connection_init now) = ⊥
IsLater _ = Unit

-- The globals before the first event: nothing counted, nothing called.
pub record IsFresh (s : Sender) : Type 0 where
  pub none_sent : s.count ≡ 0
  pub none_accepted : s.accepted ≡ 0
  pub none_refused : s.not_accepted ≡ 0
  pub no_tag : s.tag ≡ 0
  pub no_calls : s.calls ≡ []
  pub no_link : s.pn_link ≡ false
  pub no_session : s.pn_ssn ≡ false
  pub word : s.limit < 2 ^ 64

open_endpoints-Inv :
    (s : Sender) (buffer len : ℕ)
    → IsFresh s
    → Inv (record (open_endpoints s) {
      encode_buffer = true;
      encode_buffer_size = buffer;
      encoded_data_size = len;
    })
unfolding open_endpoints
open_endpoints-Inv s buffer len f = ground arith

module _ (encode : Message → ℕ → Encoded) where
  -- Encoding touches the buffer alone.
  pub generate_message_frame :
      (now : ℕ) (s t : Sender)
      → generate_message encode now s ≡ ok t
      → (buffer len : ℕ) × (t
          ≡ record s { encode_buffer = true; encode_buffer_size = buffer; encoded_data_size = len })
  unfolding generate_message
  generate_message_frame now s t e =
      let (r, _, same) =
        >>=-eq-ok (encode_loop (encode (message s now)) encode_fuel (buffer_size s))
          (keep_encoded s) e in
      (r.0, r.1, cc)

  pub encode_if_frame :
      (stamped : Bool) (now : ℕ) (s t : Sender)
      → encode_if encode stamped now s ≡ ok t
      → (made : Bool) × (buffer : ℕ) × (len : ℕ) × (t
          ≡ record s { encode_buffer = made; encode_buffer_size = buffer; encoded_data_size = len })
  unfolding encode_if
  encode_if_frame true now s t e =
      let (b, l, same) = generate_message_frame now s t e in (true, b, l, same)
  encode_if_frame false now s t e =
      (s.encode_buffer, s.encode_buffer_size, s.encoded_data_size, (cc))

  send_one-Inv :
      (stamp : ℕ → ℕ) (s t : Sender)
      → Inv s
      → may_send s ≡ true
      → send_one encode stamp s ≡ ok t
      → Inv t
  unfolding send_one
  send_one-Inv stamp s t v m e =
      let (r, made, same) =
        >>=-eq-ok (encode_if encode s.add_timestamp (stamp s.tag) (next_delivery s))
          (λ r. ok (write_out r)) e in
      let (k, b, l, shape) =
        encode_if_frame s.add_timestamp (stamp s.tag) (next_delivery s) r made in
      let out : t ≡ write_out r = (cc) in rw (out, shape) (write_out-Inv s b l k v m)

  pub send_loop-Inv :
      (stamp : ℕ → ℕ) (credit : ℕ) (s t : Sender) (left : ℕ)
      → Inv s
      → send_loop encode stamp credit s ≡ ok (left, t)
      → Inv t
  unfolding send_loop
  send_loop-Inv stamp zero s t left v e = ground arith
  send_loop-Inv stamp (suc credit) s t left v e = elim (Bool-cases (may_send s)) [
    | inl m ↦
        let (r, one, rest) =
          >>=-eq-ok (send_one encode stamp s) (λ r. send_loop encode stamp credit r) (cc m) in
        send_loop-Inv stamp credit r t left (send_one-Inv stamp s r v m one) rest
    | inr full ↦ ground arith
  ]

  before_sending-Inv : (reads : FlowReads) (s : Sender) → Inv s → Inv (before_sending reads s)
  unfolding before_sending
  before_sending-Inv reads s v = (ground (arith, end_stall-Inv reads.stall_end s))

  after_sending-Inv :
      (reads : FlowReads) (credit : ℕ) (s : Sender) → Inv s → Inv (after_sending reads credit s)
  unfolding after_sending
  after_sending-Inv reads credit s v = ground arith

  on_flow-Inv : (reads : FlowReads) (s t : Sender) → Inv s → on_flow encode reads s ≡ ok t → Inv t
  unfolding on_flow
  on_flow-Inv reads s t v e = elim (Bool-cases (ltb 0 reads.credit && may_send s)) [
    | inl m ↦
        let (r, sent, last) =
          >>=-eq-ok (send_loop encode reads.stamp reads.credit (before_sending reads s))
            (λ (r : ℕ × Sender). ok (after_sending reads r.0 r.1)) {s = t} (cc m) in
        (ground (
          arith,
          last,
          after_sending-Inv reads r.0 r.1,
          send_loop-Inv reads.stamp reads.credit (before_sending reads s) r.1 r.0
              (before_sending-Inv reads s v) sent,
        ))
    | inr n ↦ ground arith
  ]

  -- Every event but the first, PN_CONNECTION_INIT, keeps the accounts.
  pub event_handler-Inv :
      (e : Event) (s t : Sender) → IsLater e → Inv s → event_handler encode e s ≡ ok t → Inv t
  unfolding event_handler
  event_handler-Inv (connection_init now) s t later v h = elim later [ ]
  event_handler-Inv (link_flow reads) s t later v h = on_flow-Inv reads s t v h
  event_handler-Inv (delivery updated rs now) s t later v h =
      ground (arith, on_delivery-Inv updated rs now s v)
  event_handler-Inv unhandled s t later v h = ground arith

  pub run-Inv :
      (es : List Event) (s t : Sender) → All IsLater es → Inv s → run encode es s ≡ ok t → Inv t
  unfolding run
  run-Inv [] s t later v h = ground arith
  run-Inv (e ∷ es) s t later v h =
      let (r, one, rest) = >>=-eq-ok (event_handler encode e s) (run encode es) h in
      run-Inv es r t later.1 (event_handler-Inv e s r later.0 v one) rest

  -- A session on fresh globals that begins with PN_CONNECTION_INIT, goes on with other events and
  -- returns keeps the accounts of the sender: each message counted has one delivery, one write and
  -- one completion, each acknowledgement is counted as accepted or not, no more is sent than the
  -- limit, and the endpoint globals are null.
  pub session-Inv :
      (now : ℕ) (es : List Event) (s t : Sender)
      → IsFresh s
      → All IsLater es
      → run encode (connection_init now ∷ es) s ≡ ok t
      → Inv t
  unfolding run event_handler on_init
  session-Inv now es s t fresh later h =
      let (r, init, rest) =
        >>=-eq-ok (generate_message encode now (open_endpoints s)) (run encode es) h in
      let (b, l, shape) = generate_message_frame now (open_endpoints s) r init in
      run-Inv es r t later (rw shape (open_endpoints-Inv s b l fresh)) rest
