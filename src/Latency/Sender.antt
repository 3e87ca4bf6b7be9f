-- ===== src/Latency/Sender.antt =====
-- benchmarks/clients/src/latency-sender.c: a sender that has one message on its way at a time, and takes
-- the time from sending it to its acknowledgement.
pub mod Main
use dispatch_tester.Common.{
  ℕ, ◌+◌, ◌-◌, String, Bool, true, false, not, ◌&&◌, ◌||◌, if◌then◌else◌, ltb, ◌==◌, Option, some,
  List, [], ◌∷◌, u64, sub64, ℤ, pos, lt_ℤ, word64, Run, ok, halt, exit_code, ◌>>=◌,
}
use dispatch_tester.Proton.Message.{
  Message, put_list, enter, put_ulong, put_binary, leave, Encoded, encode_loop, encode_fuel,
}
use dispatch_tester.Proton
use dispatch_tester.Latency.{Stats, add_latency}

pub record LatencySender : Type 0 where
  pub stop : Bool
  pub priority : ℕ
  pub limit : ℕ
  pub count : ℕ
  pub acked : ℕ
  pub accepted : ℕ
  pub not_accepted : ℕ
  pub pending_ack : Bool
  pub use_anonymous : Bool
  pub body_size : ℕ
  pub encode_buffer : Bool  -- whether the buffer is allocated
  pub held : Option Message  -- what the buffer holds
  pub encode_buffer_size : ℕ
  pub encoded_data_size : ℕ
  pub target_address : String
  pub host_address : String
  pub container_name : String
  pub pn_ssn : Bool  -- whether the global is set
  pub pn_link : Bool
  pub send_ts : ℕ
  pub ack_ts : ℕ
  pub stats : Stats
  pub tag : ℕ
  pub calls : List Proton.Call

-- What `send_msg` finds: the link's credit, the clock, and what `pn_link_send` answers at a size.
pub record SendReads : Type 0 where
  pub credit : ℤ
  pub now : ℕ
  pub rc : ℕ → ℤ

-- A delivery comes with whether it is updated, the state, the clock, and what `send_msg` finds then.
pub data Event : Type 0 where
  connection_init : Event
  link_flow : SendReads → Event
  delivery : Bool → Proton.Disposition → ℕ → SendReads → Event
  unhandled : Event

-- `limit == 0 || count < limit`.
abbrev pub may_send : LatencySender → Bool
may_send s = s.limit == 0 || ltb s.count s.limit

-- The time stamp and a block of zeros.
unfoldable pub message : LatencySender → ℕ → Message
message s now = record {
  address = s.target_address;
  priority = s.priority;
  body = put_list ∷ enter ∷ put_ulong now ∷ put_binary (s.body_size - 8) ∷ leave ∷ [];
  annotations = [];
}

-- The size of the buffer, which is allocated at its first use.
abbrev pub buffer_size : LatencySender → ℕ
buffer_size s = if s.encode_buffer then s.encode_buffer_size else s.body_size + 512

abbrev pub keep_encoded : LatencySender → Message → ℕ × ℕ → Run LatencySender
keep_encoded s m (buffer, len) = ok (record s {
  encode_buffer = true;
  held = some m;
  encode_buffer_size = buffer;
  encoded_data_size = len;
})

-- The message is written and completed.
unfoldable pub write_out : SendReads → LatencySender → Run LatencySender
write_out r s =
    if word64 (r.rc s.encoded_data_size) == s.encoded_data_size
    then ok (record s {
      pending_ack = true;
      calls = Proton.link_advance ∷ Proton.link_send s.encoded_data_size ∷ s.calls;
    })
    else halt (exit_code 255)

-- The next message, with its delivery and the time.
unfoldable pub next_message : SendReads → LatencySender → LatencySender
next_message r s = record s {
  count = u64 (s.count + 1);
  tag = s.tag + 1;
  send_ts = r.now;
  calls = Proton.delivery_new (s.tag + 1) ∷ s.calls;
}

-- A terminal state: the latency enters the statistics.
unfoldable pub acknowledge : Proton.Disposition → ℕ → LatencySender → LatencySender
acknowledge rs now s =
    let t : LatencySender = record s {
      ack_ts = now;
      pending_ack = false;
      acked = u64 (s.acked + 1);
      stats = add_latency (sub64 now s.send_ts) s.stats;
      calls = Proton.delivery_settle ∷ s.calls;
    } in
    elim rs [
      | Proton.accepted ↦ record t { accepted = u64 (s.accepted + 1) }
      | _ ↦ record t { not_accepted = u64 (s.not_accepted + 1) }
    ]

-- PN_CONNECTION_INIT. `pn_ssn` and `pn_link` are locals of this branch.
unfoldable pub on_init : LatencySender → LatencySender
on_init s =
    let opened : List Proton.Call =
      Proton.sender_new ∷ Proton.session_open ∷ Proton.connection_open ∷ s.calls in
    let aimed : List Proton.Call =
      if s.use_anonymous then opened else Proton.set_target s.target_address ∷ opened in
    record s { calls = Proton.link_open ∷ aimed }

module _ (encode : Message → ℕ → Encoded) where
  unfoldable pub generate_message : ℕ → LatencySender → Run LatencySender
  generate_message now s =
      encode_loop (encode (message s now)) encode_fuel (buffer_size s)
      >>= keep_encoded s (message s now)

  unfoldable pub send_msg : SendReads → LatencySender → Run LatencySender
  send_msg r s =
      let sent : Run LatencySender = generate_message r.now (next_message r s) >>= write_out r in
      if lt_ℤ (pos 0) r.credit && (not s.pending_ack && may_send s) then sent else ok s

  -- What follows an acknowledgement: the next message, or the end.
  unfoldable pub send_more : SendReads → LatencySender → Run LatencySender
  send_more r s =
      if may_send s
      then send_msg r s
      else if s.acked == s.limit
      then ok (record s { stop = true; calls = Proton.wakeup ∷ s.calls })
      else ok s

  -- PN_DELIVERY with an update.
  unfoldable pub on_update : Proton.Disposition → ℕ → SendReads → LatencySender → Run LatencySender
  on_update Proton.received now r s = ok s
  on_update rs now r s = send_more r (acknowledge rs now s)

  unfoldable pub event_handler : Event → LatencySender → Run LatencySender
  event_handler connection_init s = ok (on_init s)
  event_handler (link_flow r) s = if s.stop then ok s else send_msg r s
  event_handler (delivery updated rs now r) s = if updated then on_update rs now r s else ok s
  event_handler unhandled s = ok s

  -- The events of a session in their order; a halt ends it.
  unfoldable pub run : List Event → LatencySender → Run LatencySender
  run [] s = ok s
  run (e ∷ es) s = event_handler e s >>= run es
