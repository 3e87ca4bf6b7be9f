-- ===== src/Latency/Accounts.antt =====
-- The accounts of the latency sender: at most one message is on its way.
use dispatch_tester.Common.{
  some, ℕ, ◌+◌, ◌≤◌, ◌<◌, ◌^◌, ◌≡◌, true, false, List, [], ◌∷◌, count_if, u64, Ends, if◌then◌else◌,
}
use dispatch_tester.Proton
use dispatch_tester.Proton.Message.{Message, Encoded}
use dispatch_tester.Proton.Message.Encode.{IsEncoder}
use dispatch_tester.Latency.Sender.{LatencySender, Event, connection_init, delivery, event_handler}

-- The messages on their way.
abbrev pub pending : LatencySender → ℕ
pending s = if s.pending_ack then 1 else 0

-- Each message has its delivery and its advance, each acknowledgement is counted, one message at most
-- is without one, and the limit is kept.
pub record Inv (s : LatencySender) : Type 0 where
  pub deliveries : u64 (count_if Proton.is_delivery s.calls) ≡ s.count
  pub advances : count_if Proton.is_advance s.calls ≡ count_if Proton.is_delivery s.calls
  pub sends : count_if Proton.is_send s.calls ≡ count_if Proton.is_delivery s.calls
  pub settles : u64 (count_if Proton.is_settle s.calls) ≡ s.acked
  pub answers : u64 (s.accepted + s.not_accepted) ≡ s.acked
  pub one_pending :
      count_if Proton.is_delivery s.calls ≡ count_if Proton.is_settle s.calls + pending s
  pub limit_word : s.limit < 2 ^ 64
  pub bounded : 0 < s.limit → s.count ≤ s.limit
  pub buffer : s.encode_buffer ≡ true → 0 < s.encode_buffer_size

-- The state with an encoded message.
abbrev with_encoded : Message → ℕ → ℕ → LatencySender → LatencySender
with_encoded m buffer len s = record s {
  encode_buffer = true;
  held = some m;
  encode_buffer_size = buffer;
  encoded_data_size = len;
}

-- What the library may answer: an acknowledgement comes only for a message on its way.
abbrev pub IsAnswer : Event → LatencySender → Type 0
IsAnswer connection_init s = ⊥
IsAnswer (delivery true Proton.received now r) s = Unit
IsAnswer (delivery true rs now r) s = s.pending_ack ≡ true
IsAnswer _ s = Unit

-- The globals when PN_CONNECTION_INIT comes.
pub record IsFresh (s : LatencySender) : Type 0 where
  pub none_sent : s.count ≡ 0
  pub none_acked : s.acked ≡ 0
  pub none_accepted : s.accepted ≡ 0
  pub none_failed : s.not_accepted ≡ 0
  pub idle : s.pending_ack ≡ false
  pub no_buffer : s.encode_buffer ≡ false
  pub limit_word : s.limit < 2 ^ 64
  pub no_calls : s.calls ≡ []

module _ (need : ℕ) (encode : Message → ℕ → Encoded) (small : need ≤ 2 ^ 63)
    (law : (m : Message) → IsEncoder need (encode m)) where
  abbrev pub AreAnswers : List Event → LatencySender → Type 0
  AreAnswers [] s = Unit
  AreAnswers (e ∷ es) s = IsAnswer e s × Ends (AreAnswers es) (event_handler encode e s)
