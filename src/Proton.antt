-- ===== src/Proton.antt =====
-- What the clients see of the Qpid Proton library, which is not in the repository. A call into the
-- library is recorded as a `Call`, newest first; what a call returns is an argument of the model.
pub mod Options
pub mod Message
pub mod Clock
pub mod Credit
pub mod Address
pub mod Links
pub mod Program
pub mod Decimal
mod Examples
use dispatch_tester.Common.{ℕ, String, Bool, true, false, List, [], ◌∷◌}

-- The state that a peer reports for a delivery; `other` is any other code.
pub data Disposition : Type 0 where
  received accepted rejected released modified other : Disposition

pub data Signal : Type 0 where
  sigint sigquit sigother : Signal

pub data Call : Type 0 where
  connect_to : String → List ℕ → List ℕ → Call  -- the container, the host, and the port if it is apart
  listen : List ℕ → Call  -- the address
  listener_accept : Call
  set_container : String → Call
  connection_open connection_close connection_wake : Call
  session_open session_close session_free : Call
  sender_new receiver_new link_open link_close link_free link_advance : Call
  set_source set_target : String → Call
  link_flow : ℕ → Call
  link_send : ℕ → Call
  delivery_new : ℕ → Call
  delivery_update : Disposition → Call
  delivery_settle : Call
  set_max_frame : ℕ → Call
  set_window : ℕ → ℕ → Call  -- the incoming window and its low watermark
  set_timeout : ℕ → Call
  wakeup : Call
  acceptor_close : Call
  raw_connect raw_wake raw_close : Call
  raw_write : ℕ → ℕ → Call  -- a buffer's slot and its size

abbrev pub is_settle : Call → Bool
is_settle delivery_settle = true
is_settle _ = false

abbrev pub is_delivery : Call → Bool
is_delivery (delivery_new t) = true
is_delivery _ = false

abbrev pub is_send : Call → Bool
is_send (link_send n) = true
is_send _ = false

abbrev pub is_advance : Call → Bool
is_advance link_advance = true
is_advance _ = false

abbrev pub is_accept : Call → Bool
is_accept (delivery_update accepted) = true
is_accept _ = false

abbrev pub is_connection_close : Call → Bool
is_connection_close connection_close = true
is_connection_close _ = false

abbrev pub is_link_open : Call → Bool
is_link_open link_open = true
is_link_open _ = false

abbrev pub is_link_close : Call → Bool
is_link_close link_close = true
is_link_close _ = false

abbrev pub is_session_close : Call → Bool
is_session_close session_close = true
is_session_close _ = false

abbrev pub is_session_open : Call → Bool
is_session_open session_open = true
is_session_open _ = false

-- Octets written to a link, and credit granted to the peer.
abbrev pub octets : Call → ℕ
octets (link_send n) = n
octets _ = 0

abbrev pub credits : Call → ℕ
credits (link_flow n) = n
credits _ = 0

-- The slots that were handed to the raw connection, newest first.
abbrev pub written_slots : List Call → List ℕ
written_slots [] = []
written_slots (raw_write slot size ∷ calls) = slot ∷ written_slots calls
written_slots (_ ∷ calls) = written_slots calls
