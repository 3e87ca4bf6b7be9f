-- ===== src/Sender.antt =====
-- benchmarks/clients/src/sender.c: the message that the benchmark sender sends, and its event handler.
pub mod State
mod Annotations
pub mod Main
mod Stalls
mod Accounting
mod Flow
mod Total
mod Shutdown
mod Examples
use dispatch_tester.Common.{
  ℕ, zero, suc, ◌+◌, ◌-◌, ◌*◌, String, Bool, true, false, not, ◌&&◌, ◌||◌, if◌then◌else◌, ltb, ◌==◌,
  List, [], ◌∷◌, u64, ℤ, pos, negsuc, Run, ok, ◌>>=◌,
}
use dispatch_tester.Proton.Message.{
  Message, put_list, enter, leave, put_long, put_binary, Encoded, encode_loop, encode_fuel,
}
use dispatch_tester.Proton.Clock.{Timespec, diff_timespec_usec}
use dispatch_tester.Proton
pub use dispatch_tester.Sender.State.{Sender, emit}
use dispatch_tester.Sender.Annotations.{add_message_annotations}

-- The message's content: the time stamp and a block of zeros, and the annotations.
unfoldable pub message : Sender → ℕ → Message
unfolding add_message_annotations
message s now = record {
  address = s.target_address;
  priority = 4;
  body = put_list ∷ enter ∷ put_long now ∷ put_binary (s.body_size - 8) ∷ leave ∷ [];
  annotations = if s.add_annotations then add_message_annotations else [];
}

-- What a PN_LINK_FLOW finds: the link's credit, and the clock at each place where it is read.
pub record FlowReads : Type 0 where
  pub credit : ℕ
  pub stall_end : Timespec
  pub first_send : ℕ
  pub stamp : ℕ → ℕ  -- by tag
  pub last_send : ℕ
  pub stall_start : Timespec

-- The clock at the two places where a PN_DELIVERY reads it: for the first message accepted, and at the
-- end. A clock that fails would end the process, here and above.
pub record AckReads : Type 0 where
  pub ack_start : ℕ
  pub ack_stop : ℕ

pub data Event : Type 0 where
  connection_init : ℕ → Event
  link_flow : FlowReads → Event
  delivery : Bool → Proton.Disposition → AckReads → Event
  unhandled : Event

-- A stall of `d` microseconds enters the statistics.
unfoldable pub count_stall : ℕ → Sender → Sender
count_stall d s =
    if ltb 0 d
    then record s {
      stall_count = s.stall_count + 1;
      total_stall = u64 (s.total_stall + d);
      sum_of_squares = u64 (s.sum_of_squares + d * d);
      worse_stall = if ltb s.worse_stall d then d else s.worse_stall;
    }
    else s

-- A difference that is not positive is passed over.
unfoldable pub count_difference : ℤ → Sender → Sender
unfolding count_stall
count_difference (pos d) s = count_stall d s
count_difference (negsuc d) s = s

-- The end of a credit stall.
unfoldable pub end_stall : Timespec → Sender → Sender
unfolding count_difference
end_stall end s =
    if s.stalled
    then record (count_difference (diff_timespec_usec s.start_stall end) s) { stalled = false }
    else s

-- `limit == 0 || count < limit`.
abbrev pub may_send : Sender → Bool
may_send s = s.limit == 0 || ltb s.count s.limit

-- `limit && count == limit`.
abbrev pub all_sent : Sender → Bool
all_sent s = not (s.limit == 0) && s.count == s.limit

-- A delivery that the peer has updated.
unfoldable pub tally : Proton.Disposition → AckReads → Sender → Sender
tally Proton.received now s = s
tally Proton.accepted now s = record s {
  acked = u64 (s.acked + 1);
  accepted = u64 (s.accepted + 1);
  ack_start_ts = if s.ack_start_ts == 0 then now.ack_start else s.ack_start_ts;
  calls = Proton.delivery_settle ∷ s.calls;
}
tally _ now s = record s {
  acked = u64 (s.acked + 1);
  not_accepted = u64 (s.not_accepted + 1);
  calls = Proton.delivery_settle ∷ s.calls;
}

-- PN_DELIVERY.
unfoldable pub on_delivery : Bool → Proton.Disposition → AckReads → Sender → Sender
unfolding tally
on_delivery updated rs now s =
    let t : Sender = tally rs now s in
    if updated
    then (if not (t.limit == 0) && t.acked == t.limit
        then record t { stop = true; ack_stop_ts = now.ack_stop; calls = Proton.wakeup ∷ t.calls }
        else t)
    else s

-- `pn_ssn` and `pn_link` are locals of this branch, so the globals stay as they are.
unfoldable pub open_endpoints : Sender → Sender
open_endpoints s =
    let opened : List Proton.Call =
      Proton.sender_new ∷ Proton.session_open ∷ Proton.connection_open ∷ s.calls in
    let aimed : List Proton.Call =
      if s.use_anonymous then opened else Proton.set_target s.target_address ∷ opened in
    record s { acked = s.count; calls = Proton.link_open ∷ aimed }

-- The first half of a round of the send loop: a delivery for the next message.
unfoldable pub next_delivery : Sender → Sender
next_delivery s = record s {
  count = u64 (s.count + 1);
  tag = s.tag + 1;
  calls = Proton.delivery_new s.tag ∷ s.calls;
}

-- The second half: the message is written, completed and, if asked for, settled.
unfoldable pub write_out : Sender → Sender
write_out r =
    let sent : Sender = record r {
      calls = Proton.link_advance ∷ Proton.link_send r.encoded_data_size ∷ r.calls;
    } in
    let settled : Sender = record sent { calls = Proton.delivery_settle ∷ sent.calls } in
    if r.presettle
    then (if all_sent settled
        then record settled { stop = true; calls = Proton.wakeup ∷ settled.calls }
        else settled)
    else sent

-- What follows the send loop, which left `credit`.
unfoldable pub after_sending : FlowReads → ℕ → Sender → Sender
after_sending reads credit t =
    if all_sent t
    then record t { stop_ts = reads.last_send }
    else if credit == 0
    then record t { stalled = true; start_stall = reads.stall_start }
    else t

-- What precedes it.
unfoldable pub before_sending : FlowReads → Sender → Sender
before_sending reads s =
    let a : Sender = end_stall reads.stall_end s in
    record a {
      grant_count = a.grant_count + 1;
      credit_grants = u64 (a.credit_grants + reads.credit);
      start_ts = if a.start_ts == 0 then reads.first_send else a.start_ts;
    }

-- The size of the buffer, which is allocated at its first use.
abbrev pub buffer_size : Sender → ℕ
buffer_size s = if s.encode_buffer then s.encode_buffer_size else u64 (s.body_size + 512)

abbrev pub keep_encoded : Sender → ℕ × ℕ → Run Sender
keep_encoded s (buffer, len) =
    ok (record s { encode_buffer = true; encode_buffer_size = buffer; encoded_data_size = len })

module _ (encode : Message → ℕ → Encoded) where
  unfoldable pub generate_message : ℕ → Sender → Run Sender
  generate_message now s =
      encode_loop (encode (message s now)) encode_fuel (buffer_size s) >>= keep_encoded s

  -- PN_CONNECTION_INIT.
  unfoldable pub on_init : ℕ → Sender → Run Sender
  on_init now s = generate_message now (open_endpoints s)

  -- The encoding within a round, which is made if the messages carry time stamps.
  unfoldable pub encode_if : Bool → ℕ → Sender → Run Sender
  encode_if true now s = generate_message now s
  encode_if false now s = ok s

  -- One round of the send loop.
  unfoldable pub send_one : (ℕ → ℕ) → Sender → Run Sender
  send_one stamp s = do
    r ← encode_if s.add_timestamp (stamp s.tag) (next_delivery s)
    ok (write_out r)

  -- `while (credit > 0 && (limit == 0 || count < limit))`: the credit that is left, and the state.
  unfoldable pub send_loop : (ℕ → ℕ) → ℕ → Sender → Run (ℕ × Sender)
  send_loop stamp zero s = ok (zero, s)
  send_loop stamp (suc credit) s = elim (may_send s) [
    | true ↦ send_one stamp s >>= λ t. send_loop stamp credit t
    | false ↦ ok (suc credit, s)
  ]

  -- PN_LINK_FLOW.
  unfoldable pub on_flow : FlowReads → Sender → Run Sender
  on_flow reads s =
      let flow : Run Sender = do
        (credit, t) ← send_loop reads.stamp reads.credit (before_sending reads s)
        ok (after_sending reads credit t)
      in if ltb 0 reads.credit && may_send s then flow else ok s

  unfoldable pub event_handler : Event → Sender → Run Sender
  event_handler (connection_init now) s = on_init now s
  event_handler (link_flow reads) s = on_flow reads s
  event_handler (delivery updated rs now) s = ok (on_delivery updated rs now s)
  event_handler unhandled s = ok s

  -- The events of a session in their order; a halt ends it.
  unfoldable pub run : List Event → Sender → Run Sender
  run [] s = ok s
  run (e ∷ es) s = event_handler e s >>= run es
