-- ===== src/Clogger.antt =====
-- clients/chaos/clogger.c: a sender of very long messages in chunks, with a pause before each chunk.
-- `rc n` is what `pn_link_send` answers for `n` octets; the octets that it took are recorded.
mod Framing
mod Progress
mod Session
pub mod Main
mod Examples
use dispatch_tester.Common.{
  ℕ, zero, suc, ◌+◌, ◌-◌, String, Bool, true, false, not, ◌&&◌, ◌||◌, if◌then◌else◌, ltb, ◌==◌,
  List, [], ◌∷◌, u64, u32, ℤ, pos, negsuc, Run, ok, halt, aborted, assert_failed, ◌>>=◌,
}
use dispatch_tester.Proton

pub record Clogger : Type 0 where
  pub stop : Bool
  pub verbose : Bool
  pub limit : ℕ
  pub sent : ℕ
  pub acked : ℕ
  pub accepted : ℕ
  pub not_accepted : ℕ
  pub use_anonymous : Bool
  pub presettle : Bool
  pub body_length : ℕ
  pub pause_msec : ℕ
  pub target_address : String
  pub host_address : String
  pub container_name : String
  pub pn_conn : Bool  -- whether the pointer is set
  pub pn_ssn : Bool
  pub pn_link : Bool
  pub pn_dlv : Bool
  pub bytes_sent : ℕ
  pub remote_max_frame : ℕ
  pub tag : ℕ
  pub calls : List Proton.Call

abbrev pub default_max_frame : ℕ
default_max_frame = 65535

-- `sizeof(msg_header)` and the length field behind it.
abbrev pub header_size : ℕ
header_size = 12

abbrev pub length_size : ℕ
length_size = 4

pub data Event : Type 0 where
  connection_init : Event
  connection_remote_open : ℕ → Event
  link_flow : ℕ → Event
  transport : Event
  delivery : Bool → Proton.Disposition → Event
  proactor_timeout : Event
  connection_wake : ℕ → Event
  proactor_inactive : Event
  unhandled : Event

abbrev pub emit : Proton.Call → Clogger → Clogger
emit c s = record s { calls = c ∷ s.calls }

-- `MIN(X, Y)`.
abbrev pub min_of : ℕ → ℕ → ℕ
min_of x y = if ltb x y then x else y

abbrev pub may_send : Clogger → Bool
may_send s = s.limit == 0 || ltb s.sent s.limit

-- An octet count that must be `n`: `assert(rc == n)`.
abbrev pub check_sent : ℕ → ℤ → Clogger → Run Clogger
check_sent n (pos m) s = if m == n then ok (emit (Proton.link_send m) s) else halt assert_failed
check_sent n (negsuc m) s = halt assert_failed

-- A body chunk: the process aborts if it is refused.
abbrev pub add_sent : ℤ → Clogger → Run Clogger
add_sent (pos m) s =
    ok (record s { bytes_sent = u32 (s.bytes_sent + m); calls = Proton.link_send m ∷ s.calls })
add_sent (negsuc m) s = halt aborted

-- The chunk of the body that is written next.
unfoldable pub chunk_size : Clogger → ℕ
chunk_size s = min_of (min_of (s.body_length - s.bytes_sent) s.remote_max_frame) default_max_frame

-- The end of a message, in `send_message_data`: the result is `true` if all of the body is out.
unfoldable pub finish_message : Clogger → Bool × Clogger
finish_message s =
    let done : Clogger = record s {
      sent = u64 (s.sent + 1);
      pn_dlv = false;
      calls = Proton.link_advance ∷ s.calls;
    } in
    let settled : Clogger = emit Proton.delivery_settle done in
    if s.bytes_sent == s.body_length
    then (
      true,
      if s.presettle
          then (if not (settled.limit == 0) && settled.sent == settled.limit
              then record settled { stop = true; calls = Proton.wakeup ∷ settled.calls }
              else settled)
          else done,
    )
    else (false, s)

-- A delivery that the peer has updated.
unfoldable pub tally : Proton.Disposition → Clogger → Clogger
tally Proton.received s = s
tally Proton.accepted s = record s {
  acked = u64 (s.acked + 1);
  accepted = u64 (s.accepted + 1);
  calls = Proton.delivery_settle ∷ s.calls;
}
tally _ s = record s {
  acked = u64 (s.acked + 1);
  not_accepted = u64 (s.not_accepted + 1);
  calls = Proton.delivery_settle ∷ s.calls;
}

-- PN_DELIVERY.
unfoldable pub on_delivery : Bool → Proton.Disposition → Clogger → Clogger
unfolding tally
on_delivery updated rs s =
    let t : Clogger = tally rs s in
    if updated
    then (if not (t.limit == 0) && t.acked == t.limit
        then record t { stop = true; calls = Proton.wakeup ∷ t.calls }
        else t)
    else s

-- PN_CONNECTION_INIT.
unfoldable pub on_init : Clogger → Clogger
on_init s =
    let opened : List Proton.Call =
      Proton.sender_new ∷ Proton.session_open ∷ Proton.connection_open ∷ s.calls in
    let aimed : List Proton.Call =
      if s.use_anonymous then opened else Proton.set_target s.target_address ∷ opened in
    record s { pn_ssn = true; pn_link = true; calls = Proton.link_open ∷ aimed }

module _ (rc : ℕ → ℤ) where
  -- A new delivery, its header and the length of its body.
  unfoldable pub write_header : Clogger → Run Clogger
  write_header s = do
    t ← check_sent header_size (rc header_size) (record s {
      pn_dlv = true;
      tag = s.tag + 1;
      bytes_sent = 0;
      calls = Proton.delivery_new s.tag ∷ s.calls;
    })
    check_sent length_size (rc length_size) t

  unfoldable pub start_message : Clogger → Run Clogger
  start_message s =
      if not s.pn_link || not s.pn_conn
      then ok s
      else if s.pn_dlv
      then halt aborted
      else write_header s

  -- The result is `true` if no message is left in the making.
  unfoldable pub send_message_data : Clogger → Run (Bool × Clogger)
  send_message_data s =
      let written : Run Clogger =
        if ltb s.bytes_sent s.body_length then add_sent (rc (chunk_size s)) s else ok s in
      if s.pn_dlv then (written >>= λ t. ok (finish_message t)) else ok (true, s)

  -- `start_message` and the pause before its body.
  unfoldable pub start_and_pause : Clogger → Run Clogger
  start_and_pause s = start_message s >>= λ t. ok (emit (Proton.set_timeout t.pause_msec) t)

  -- PN_LINK_FLOW.
  unfoldable pub on_flow : ℕ → Clogger → Run Clogger
  on_flow credit s =
      if may_send s && (ltb 0 credit && not s.pn_dlv) then start_and_pause s else ok s

  -- What follows the chunk in PN_CONNECTION_WAKE.
  unfoldable pub after_chunk : ℕ → Bool × Clogger → Run Clogger
  after_chunk credit (false, t) = ok (emit (Proton.set_timeout t.pause_msec) t)
  after_chunk credit (true, t) = if may_send t && ltb 0 credit then start_and_pause t else ok t

  -- PN_CONNECTION_WAKE.
  unfoldable pub on_wake : ℕ → Clogger → Run Clogger
  on_wake credit s = send_message_data s >>= after_chunk credit

  -- The handler of one event; the result is whether the client has stopped.
  unfoldable pub event_handler : Event → Clogger → Run (Bool × Clogger)
  event_handler connection_init s = ok (false, on_init s)
  event_handler (connection_remote_open rmf) s =
      ok (false, record s { remote_max_frame = if rmf == 0 then default_max_frame else rmf })
  event_handler (link_flow credit) s = on_flow credit s >>= λ t. ok (false, t)
  event_handler (delivery updated rs) s = ok (false, on_delivery updated rs s)
  event_handler proactor_timeout s =
      ok (false, if s.pn_conn then emit Proton.connection_wake s else s)
  event_handler (connection_wake credit) s = on_wake credit s >>= λ t. ok (false, t)
  event_handler proactor_inactive s = ok (s.stop, s)
  event_handler _ s = ok (false, s)
