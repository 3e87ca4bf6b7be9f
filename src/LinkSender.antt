-- ===== src/LinkSender.antt =====
-- skupper-router/clients/amqp_link_scale/link-sender.c: opens a set of links, sends one message on each,
-- and closes a link when its message has been dealt with.
pub mod Body
pub mod Close
mod Examples
pub mod Main
use dispatch_tester.Common.{
  ℕ, suc, ◌+◌, ◌-◌, String, Bool, true, false, not, ◌&&◌, ◌||◌, if◌then◌else◌, ltb, ◌==◌, Option,
  none, some, List, [], ◌∷◌, ℤ, word64, store, Run, ok, halt, exit_code, ◌>>=◌,
}
use dispatch_tester.Proton
use dispatch_tester.Proton.Links.{open_senders}

-- `sending l` is the delivery that link `l` keeps as its context, if any, with the octets of body sent
-- for it, which the delivery keeps as its own.
pub record LinkSender : Type 0 where
  pub debug_mode : Bool
  pub target_address : String
  pub host_address : String
  pub container_name : String
  pub max_links : ℕ
  pub closed_links : ℕ
  pub body_length : ℕ
  pub tag : ℕ
  pub sending : ℕ → Option ℕ
  pub calls : List Proton.Call

-- `sizeof(msg_fragment)`, the size of the length behind it, and TX_BUF_SIZE.
abbrev pub header_size : ℕ
header_size = 12

abbrev pub length_size : ℕ
length_size = 4

abbrev pub tx_buffer_size : ℕ
tx_buffer_size = 32768

-- What a PN_LINK_FLOW finds: the link, whether it is locally active, its credit, whether it has a
-- current delivery and a new one is made, whether the delivery is writable, and what `pn_link_send`
-- answers for a number of octets.
pub record FlowReads : Type 0 where
  pub link : ℕ
  pub active : Bool
  pub credit : ℕ
  pub current : Bool
  pub made : Bool
  pub writable : Bool
  pub rc : ℕ → ℤ

pub data Event : Type 0 where
  connection_init : Event
  link_flow : FlowReads → Event
  delivery : Bool → Proton.Disposition → Event
  proactor_inactive : Event
  proactor_interrupt : Event
  unhandled : Event

-- The octets must all be taken: `rc` is compared with an unsigned size.
unfoldable pub send_all : FlowReads → ℕ → LinkSender → Run LinkSender
send_all r size s =
    if word64 (r.rc size) == size
    then ok (record s { calls = Proton.link_send size ∷ s.calls })
    else halt (exit_code 1)

-- A new delivery, its header and the length of its body; the link keeps it.
unfoldable pub start_message : FlowReads → LinkSender → Run LinkSender
unfolding send_all
start_message r s =
    let begun : Run LinkSender =
      send_all r header_size
        (record s { tag = s.tag + 1; calls = Proton.delivery_new s.tag ∷ s.calls }) in
    if r.current || not r.made
    then halt (exit_code 1)
    else (begun >>= send_all r length_size >>= λ t.
        ok (record t { sending = store t.sending r.link (some 0) }))

-- `MIN(body_length - sent, TX_BUF_SIZE)`.
abbrev pub amount : LinkSender → ℕ → ℕ
amount s sent =
    if ltb (s.body_length - sent) tx_buffer_size then s.body_length - sent else tx_buffer_size

-- The octets are counted, and the link goes on when the body is out.
unfoldable pub count_sent : FlowReads → ℕ → LinkSender → LinkSender
count_sent r total s =
    let t : LinkSender = record s { sending = store s.sending r.link (some total) } in
    if total == s.body_length then record t { calls = Proton.link_advance ∷ t.calls } else t

unfoldable pub write_body : FlowReads → ℕ → LinkSender → Run LinkSender
unfolding send_all
write_body r sent s =
    let written : Run LinkSender =
      send_all r (amount s sent) s >>= λ t. ok (count_sent r (sent + amount s sent) t) in
    if r.writable && ltb sent s.body_length then written else ok s

-- `if (dlv && pn_delivery_writable(dlv))` and its body.
unfoldable pub continue_message : FlowReads → LinkSender → Run LinkSender
continue_message r s = elim (s.sending r.link) [ none ↦ ok s | some sent ↦ write_body r sent s ]

-- PN_LINK_FLOW.
unfoldable pub on_flow : FlowReads → LinkSender → Run LinkSender
on_flow r s =
    let started : Run LinkSender = elim (s.sending r.link) [
      | none ↦ if ltb 0 r.credit then start_message r s else ok s
      | some sent ↦ ok s
    ] in
    if r.active then (started >>= continue_message r) else ok s

-- PN_DELIVERY. The result is whether the last link is closed.
unfoldable pub on_delivery : Bool → Proton.Disposition → LinkSender → Bool × LinkSender
on_delivery false rs s = (false, s)
on_delivery true Proton.received s = (false, s)
on_delivery true _ s =
    let t : LinkSender = record s {
      closed_links = s.closed_links + 1;
      calls = Proton.link_close ∷ Proton.delivery_settle ∷ s.calls;
    } in
    (t.closed_links == t.max_links, t)

-- The result is whether the client has stopped.
unfoldable pub event_handler : Event → LinkSender → Run (Bool × LinkSender)
event_handler connection_init s = ok (
  false,
  record s {
    calls =
        open_senders s.max_links s.target_address
          (Proton.session_open ∷ Proton.connection_open ∷ s.calls);
  },
)
event_handler (link_flow r) s = on_flow r s >>= λ t. ok (false, t)
event_handler (delivery updated rs) s = ok (on_delivery updated rs s)
event_handler proactor_inactive s = ok (true, s)
event_handler proactor_interrupt s = ok (true, s)
event_handler unhandled s = ok (false, s)
