-- ===== src/LinkReceiver.antt =====
-- skupper-router/clients/amqp_link_scale/link-receiver.c: a receiver on a set of links, which takes the
-- octets of a message as they come in.
pub mod Drain
pub mod Arrival
mod Credit
mod Examples
pub mod Main
use dispatch_tester.Common.{
  ℕ, zero, suc, ◌+◌, String, Bool, true, false, not, ◌||◌, if◌then◌else◌, ltb, ◌==◌, List, [], ◌∷◌,
  u64, ℤ, pos, negsuc, store, Run, ok, halt, out_of_fuel, ◌>>=◌,
}
use dispatch_tester.Proton
use dispatch_tester.Proton.Links.{open_receivers}

-- `totals d` are the octets of delivery `d` so far, which the client keeps as the delivery's context.
pub record LinkReceiver : Type 0 where
  pub debug_mode : Bool
  pub source_address : String
  pub host_address : String
  pub container_name : String
  pub max_links : ℕ
  pub msg_count : ℕ
  pub totals : ℕ → ℕ
  pub calls : List Proton.Call

-- The credit for a new link.
abbrev pub credit_window : ℕ
credit_window = 1000

-- What a PN_DELIVERY finds: the delivery, the octets that it has pending, what `pn_link_recv` answers
-- at a number of pending octets and how many are pending after it, and whether more is to come.
pub record Delivery : Type 0 where
  pub id : ℕ
  pub pending : ℕ
  pub recv : ℕ → ℤ × ℕ
  pub partial : Bool

pub data Event : Type 0 where
  connection_bound : Event
  delivery : Delivery → Event
  proactor_inactive : Event
  proactor_interrupt : Event
  unhandled : Event

-- `while (avail && !rx_done)`: whether the delivery has ended (PN_EOS is negative too), and the total.
-- Each round needs a pending octet, so the loop runs on their number.
unfoldable pub drain : (ℕ → ℤ × ℕ) → ℕ → ℕ → ℕ → Run (Bool × ℕ)
drain recv fuel zero total = ok (false, total)
drain recv zero (suc avail) total = halt out_of_fuel
drain recv (suc fuel) (suc avail) total = elim (recv (suc avail)).0 [
  | pos n ↦ drain recv fuel (recv (suc avail)).1 (u64 (total + n))
  | negsuc n ↦ ok (true, total)
]

-- A full message, or a failure: it is accepted, and its credit is given back. The delivery is freed.
unfoldable pub finish : Delivery → LinkReceiver → LinkReceiver
finish d s = record s {
  msg_count = u64 (s.msg_count + 1);
  totals = store s.totals d.id 0;
  calls =
      Proton.link_flow 1
      ∷ Proton.delivery_settle
      ∷ Proton.delivery_update Proton.accepted
      ∷ s.calls;
}

-- What follows the loop.
unfoldable pub after_drain : Delivery → LinkReceiver → Bool × ℕ → LinkReceiver
after_drain d s (rx_done, total) =
    if rx_done || not d.partial
    then finish d s
    else if ltb 0 total
    then record s { totals = store s.totals d.id total }
    else s

-- PN_DELIVERY.
unfoldable pub on_delivery : Delivery → LinkReceiver → Run LinkReceiver
on_delivery d s = drain d.recv d.pending d.pending (s.totals d.id) >>= λ r. ok (after_drain d s r)

-- The result is whether the client has stopped.
unfoldable pub event_handler : Event → LinkReceiver → Run (Bool × LinkReceiver)
event_handler connection_bound s = ok (
  false,
  record s {
    calls =
        open_receivers s.max_links s.source_address credit_window
          (Proton.session_open ∷ Proton.connection_open ∷ s.calls);
  },
)
event_handler (delivery d) s = on_delivery d s >>= λ t. ok (false, t)
event_handler proactor_inactive s = ok (true, s)
event_handler proactor_interrupt s = ok (true, s)
event_handler unhandled s = ok (false, s)
