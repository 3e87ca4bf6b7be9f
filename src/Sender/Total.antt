-- ===== src/Sender/Total.antt =====
-- The benchmark sender always answers an event: its loops end, and the buffer holds the message.
use dispatch_tester.Common.{
  ℕ, zero, suc, ◌≤◌, ◌<◌, ◌^◌, ◌≡◌, Bool, true, false, Bool-cases, inl, inr, ok, Ends, Ends-bind,
  arith,
}
use dispatch_tester.Proton.Message.{Message, Encoded, encode_loop, encode_fuel}
use dispatch_tester.Proton.Message.Encode.{IsEncoder, encode_loop-total}
use dispatch_tester.Proton
use dispatch_tester.Sender.{
  AckReads, Sender, FlowReads, Event, connection_init, link_flow, delivery, unhandled, may_send,
  end_stall, on_delivery, message, buffer_size, keep_encoded, open_endpoints, before_sending,
  after_sending, generate_message, encode_if, next_delivery, write_out, send_one, send_loop,
  on_flow, on_init, event_handler,
}

-- An allocated buffer is not empty and holds what was encoded; the body is an int's size at most.
pub record HasRoom (s : Sender) : Type 0 where
  pub roomy : s.encode_buffer ≡ true → 0 < s.encode_buffer_size
  pub holds : s.encode_buffer ≡ true → s.encoded_data_size ≤ s.encode_buffer_size
  pub body : s.body_size < 2 ^ 31

on_delivery-HasRoom :
    (updated : Bool) (rs : Proton.Disposition) (now : AckReads) (s : Sender)
    → HasRoom s
    → HasRoom (on_delivery updated rs now s)
unfolding on_delivery
on_delivery-HasRoom updated rs now s v = ground arith

next_delivery-HasRoom : (s : Sender) → HasRoom s → HasRoom (next_delivery s)
unfolding next_delivery
next_delivery-HasRoom s v = ground arith

write_out-HasRoom : (s : Sender) → HasRoom s → HasRoom (write_out s)
unfolding write_out
write_out-HasRoom s v = ground arith

before_sending-HasRoom :
    (reads : FlowReads) (s : Sender) → HasRoom s → HasRoom (before_sending reads s)
unfolding before_sending end_stall
before_sending-HasRoom reads s v = ground arith

after_sending-HasRoom :
    (reads : FlowReads) (credit : ℕ) (s : Sender)
    → HasRoom s
    → HasRoom (after_sending reads credit s)
unfolding after_sending
after_sending-HasRoom reads credit s v = ground arith

open_endpoints-HasRoom : (s : Sender) → HasRoom s → HasRoom (open_endpoints s)
unfolding open_endpoints
open_endpoints-HasRoom s v = ground arith

buffer_size_pos : (s : Sender) → HasRoom s → 0 < buffer_size s
buffer_size_pos s v = ground arith

module _ (encode : Message → ℕ → Encoded) (need : Message → ℕ)
    (law : (m : Message) → IsEncoder (need m) (encode m))
    (small : (m : Message) → need m ≤ 2 ^ 63) where
  generate_message-Ends :
      (now : ℕ) (s : Sender) → HasRoom s → Ends HasRoom (generate_message encode now s)
  unfolding generate_message
  generate_message-Ends now s v =
      Ends-bind (λ (r : ℕ × ℕ). (0 < r.0) × (r.1 ≤ r.0)) HasRoom
        (encode_loop (encode (message s now)) encode_fuel (buffer_size s)) (keep_encoded s)
        (encode_loop-total (law (message s now)) (small (message s now)) (buffer_size s)
          (buffer_size_pos s v))
        (λ r h. ground arith)

  encode_if-Ends :
      (stamped : Bool) (now : ℕ) (s : Sender)
      → HasRoom s
      → Ends HasRoom (encode_if encode stamped now s)
  unfolding encode_if
  encode_if-Ends true now s v = generate_message-Ends now s v
  encode_if-Ends false now s v = v

  send_one-Ends : (stamp : ℕ → ℕ) (s : Sender) → HasRoom s → Ends HasRoom (send_one encode stamp s)
  unfolding send_one
  send_one-Ends stamp s v =
      Ends-bind HasRoom HasRoom (encode_if encode s.add_timestamp (stamp s.tag) (next_delivery s))
        (λ r. ok (write_out r))
        (encode_if-Ends s.add_timestamp (stamp s.tag) (next_delivery s) (next_delivery-HasRoom s v))
        (λ r h. write_out-HasRoom r h)

  send_loop-Ends :
      (stamp : ℕ → ℕ) (credit : ℕ) (s : Sender)
      → HasRoom s
      → Ends (λ (r : ℕ × Sender). HasRoom r.1) (send_loop encode stamp credit s)
  unfolding send_loop
  send_loop-Ends stamp zero s v = v
  send_loop-Ends stamp (suc credit) s v = elim (Bool-cases (may_send s)) [
    | inl m ↦
        (ground (
          arith,
          Ends-bind HasRoom (λ (r : ℕ × Sender). HasRoom r.1) (send_one encode stamp s)
              (λ r. send_loop encode stamp credit r) (send_one-Ends stamp s v)
              (λ r h. send_loop-Ends stamp credit r h),
        ))
    | inr full ↦ ground arith
  ]

  on_flow-Ends :
      (reads : FlowReads) (s : Sender) → HasRoom s → Ends HasRoom (on_flow encode reads s)
  unfolding on_flow
  on_flow-Ends reads s v =
      (ground (
        arith,
        Ends-bind (λ (r : ℕ × Sender). HasRoom r.1) HasRoom
            (send_loop encode reads.stamp reads.credit (before_sending reads s))
            (λ (r : ℕ × Sender). ok (after_sending reads r.0 r.1))
            (send_loop-Ends reads.stamp reads.credit (before_sending reads s)
              (before_sending-HasRoom reads s v))
            (λ r h. after_sending-HasRoom reads r.0 r.1 h),
      ))

  -- With an encoder that fits any message into at most 2^63 octets, from a state whose allocated
  -- buffer is not empty and holds its message, every event is handled to its end: the handler
  -- returns with a buffer that holds the message, or the process exits.
  pub event_handler-total :
      (e : Event) (s : Sender) → HasRoom s → Ends HasRoom (event_handler encode e s)
  unfolding event_handler
  event_handler-total (connection_init now) s v =
      unfold on_init in generate_message-Ends now (open_endpoints s) (open_endpoints-HasRoom s v)
  event_handler-total (link_flow reads) s v = on_flow-Ends reads s v
  event_handler-total (delivery updated rs now) s v = on_delivery-HasRoom updated rs now s v
  event_handler-total unhandled s v = v
