-- ===== src/OomSender.antt =====
-- skupper-router/oomster/oom-sender.c: a sender of endless messages, one on each link, that writes as
-- much as the session window of its peer allows.
mod Body
pub mod Main
mod Examples
use dispatch_tester.Common.{
  ℕ, zero, suc, ◌+◌, ◌-◌, ◌*◌, String, Bool, true, false, not, ◌&&◌, if◌then◌else◌, ltb, ◌==◌,
  Option, none, some, List, [], ◌∷◌, u64, u32, sub64, store, ℤ, pos, negsuc, word64, Run, ok, halt,
  exit_code, assert_failed, null_argument, ◌>>=◌,
}
use dispatch_tester.Proton

-- `sending l` is the current delivery of link `l`, if any, with the octets of body sent for it, which
-- the client keeps as the delivery's context.
pub record OomSender : Type 0 where
  pub stop : Bool
  pub debug_mode : Bool
  pub verbose : Bool
  pub links : ℕ
  pub target_address : String
  pub host_address : String
  pub container_name : String
  pub total_bytes : ℕ
  pub tag : ℕ
  pub sending : ℕ → Option ℕ
  pub calls : List Proton.Call

-- `sizeof(msg_header)`, `sizeof(body_batch)` and UINT32_MAX.
abbrev pub header_size : ℕ
header_size = 16

abbrev pub batch_size : ℕ
batch_size = 1001

abbrev pub uint32_max : ℕ
uint32_max = 4294967295

-- What a PN_LINK_FLOW finds: the link, its credit, the peer's frame size and window, the octets that
-- the session has buffered, and what `pn_link_send` answers for the body.
pub record FlowReads : Type 0 where
  pub link : ℕ
  pub credit : ℕ
  pub remote_max_frame : ℕ
  pub incoming_window : ℕ
  pub outgoing_bytes : ℕ
  pub rc : ℕ → ℤ

-- A delivery comes with whether it is updated, its remote state, and the link whose current delivery it
-- is, if any: settling it ends that.
pub data Event : Type 0 where
  connection_init : Event
  link_flow : FlowReads → Event
  delivery : Bool → Proton.Disposition → Option ℕ → Event
  transport_error : Event
  proactor_interrupt : Event
  proactor_inactive : Event
  unhandled : Event

abbrev pub min_of : ℕ → ℕ → ℕ
min_of x y = if ltb y x then y else x

-- Two `uint32_t` are multiplied.
abbrev pub capacity : FlowReads → ℕ
capacity r = u32 (r.remote_max_frame * r.incoming_window)

-- The octets of body that are due next.
abbrev pub due : ℕ → ℕ
due bytes_sent = min_of batch_size (sub64 uint32_max bytes_sent)

-- First arrival of credit on a link: a delivery and the header.
unfoldable pub begin_message : FlowReads → OomSender → OomSender
begin_message r s = record s {
  tag = s.tag + 1;
  total_bytes = header_size;
  sending = store s.sending r.link (some 0);
  calls = Proton.link_send header_size ∷ Proton.delivery_new (s.tag + 1) ∷ s.calls;
}

-- The octets must all be taken.
unfoldable pub write_body : FlowReads → ℕ → ℕ → OomSender → Run OomSender
write_body r bytes_sent to_send s =
    if word64 (r.rc to_send) == to_send
    then ok (record s {
      total_bytes = u64 (s.total_bytes + to_send);
      sending = store s.sending r.link (some (bytes_sent + to_send));
      calls = Proton.link_send to_send ∷ s.calls;
    })
    else halt (exit_code 1)

-- The body of the current delivery, which has `bytes_sent` octets out.
unfoldable pub continue_message : FlowReads → ℕ → OomSender → Run OomSender
continue_message r bytes_sent s =
    let to_send : ℕ = min_of (due bytes_sent) (sub64 (capacity r) r.outgoing_bytes) in
    if ltb 0 (due bytes_sent)
    then (if ltb r.outgoing_bytes (capacity r) then write_body r bytes_sent to_send s else ok s)
    else ok
        (record s { sending = store s.sending r.link none; calls = Proton.link_advance ∷ s.calls })

-- PN_LINK_FLOW. With neither a delivery nor credit a null delivery is handed to the library.
unfoldable pub on_flow : FlowReads → OomSender → Run OomSender
on_flow r s = elim (s.sending r.link) [
  | some bytes_sent ↦ continue_message r bytes_sent s
  | none ↦ if ltb 0 r.credit then continue_message r 0 (begin_message r s) else halt null_argument
]

abbrev settled : Option ℕ → (ℕ → Option ℕ) → ℕ → Option ℕ
settled none f = f
settled (some link) f = store f link none

-- PN_DELIVERY.
unfoldable pub on_delivery : Bool → Proton.Disposition → Option ℕ → OomSender → OomSender
on_delivery false rs current s = s
on_delivery true Proton.received current s = s
on_delivery true Proton.other current s = s
on_delivery true _ current s = record s {
  sending = settled current s.sending;
  calls = Proton.delivery_settle ∷ s.calls;
}

unfoldable pub open_links : ℕ → String → List Proton.Call → List Proton.Call
open_links zero target calls = calls
open_links (suc n) target calls =
    open_links n target (Proton.link_open ∷ Proton.set_target target ∷ Proton.sender_new ∷ calls)

-- The result is whether the client has stopped.
unfoldable pub event_handler : Event → OomSender → Run (Bool × OomSender)
event_handler connection_init s = ok (
  false,
  record s {
    calls =
        open_links s.links s.target_address
          (Proton.session_open ∷ Proton.connection_open ∷ s.calls);
  },
)
event_handler (link_flow r) s = on_flow r s >>= λ t. ok (false, t)
event_handler (delivery updated rs current) s = ok (false, on_delivery updated rs current s)
event_handler transport_error s = ok (false, s)
event_handler proactor_interrupt s = if s.stop then ok (true, s) else halt assert_failed
event_handler proactor_inactive s = ok (true, s)
event_handler unhandled s = ok (false, s)
