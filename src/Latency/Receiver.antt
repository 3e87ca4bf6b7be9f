-- ===== src/Latency/Receiver.antt =====
-- benchmarks/clients/src/latency-receiver.c: takes the time from the sending of a message to its arrival.
pub mod Main
use dispatch_tester.Common.{
  ℕ, zero, suc, ◌+◌, ◌-◌, String, Bool, true, false, not, ◌&&◌, ◌||◌, if◌then◌else◌, ltb, ◌==◌,
  Option, none, some, List, [], ◌∷◌, u64, ℤ, pos, negsuc, Run, ok, halt, exit_code, out_of_fuel,
  ◌>>=◌,
}
use dispatch_tester.Proton
use dispatch_tester.Proton.Credit.{replenish}
use dispatch_tester.Latency.{Stats, add_latency}

pub record LatencyReceiver : Type 0 where
  pub stop : Bool
  pub stats : Stats
  pub credit_window : ℕ
  pub source_address : String
  pub host_address : String
  pub container_name : String
  pub pn_ssn : Bool
  pub pn_link : Bool
  pub in_message : Bool
  pub count : ℕ
  pub limit : ℕ
  pub calls : List Proton.Call

-- `MAX_SIZE`.
abbrev pub max_size : ℕ
max_size = 2097152

-- What a PN_DELIVERY finds. `recv` says at the octets pending and the room in the buffer what
-- `pn_link_recv` answers and how many octets are pending after it; `sent_at n` is the time stamp in a
-- message of `n` octets, if it decodes to a list that begins with an unsigned long.
pub record Delivery : Type 0 where
  pub readable : Bool
  pub partial : Bool
  pub now : ℕ
  pub pending : ℕ
  pub recv : ℕ → ℕ → ℤ × ℕ
  pub sent_at : ℕ → Option ℕ
  pub credit : ℕ

pub data Event : Type 0 where
  connection_init : Event
  delivery : Delivery → Event
  unhandled : Event

-- `limit && count == limit`.
abbrev pub all_received : LatencyReceiver → Bool
all_received s = not (s.limit == 0) && s.count == s.limit

-- `do … while (len > 0)`: the last answer and the room that is left. Each round takes a pending octet.
unfoldable pub read_all : (ℕ → ℕ → ℤ × ℕ) → ℕ → ℕ → ℕ → Run (ℤ × ℕ)
read_all recv zero pending avail = halt out_of_fuel
read_all recv (suc fuel) pending avail = elim (recv pending avail).0 [
  | pos zero ↦ ok (pos zero, avail)
  | pos (suc n) ↦ read_all recv fuel (recv pending avail).1 (avail - suc n)
  | negsuc n ↦ ok (negsuc n, avail)
]

-- PN_EOS is -1; any other answer is an error.
abbrev pub check_eos : ℤ × ℕ → Run ℕ
check_eos (negsuc zero, avail) = ok (max_size - avail)
check_eos (_, avail) = halt (exit_code 255)

-- A message that is too large is not read.
unfoldable pub read_message : Delivery → Run ℕ
read_message d =
    let read : Run (ℤ × ℕ) = read_all d.recv (suc d.pending) d.pending max_size in
    if ltb max_size d.pending then halt (exit_code 255) else (read >>= check_eos)

-- The time stamp of the sender.
abbrev pub check_sent : ℕ → Option ℕ → Run ℕ
check_sent now none = halt (exit_code 255)
check_sent now (some ts) = if ts == 0 || ltb now ts then halt (exit_code 255) else ok (now - ts)

-- The message is settled before it is decoded.
unfoldable pub settle : LatencyReceiver → LatencyReceiver
settle s = record s {
  calls = Proton.delivery_settle ∷ Proton.delivery_update Proton.accepted ∷ s.calls;
}

-- What follows the statistics: the client stops or gives credit.
unfoldable pub complete : ℕ → LatencyReceiver → LatencyReceiver
complete credit s =
    if all_received s
    then record s { stop = true; calls = Proton.wakeup ∷ s.calls }
    else record s { calls = replenish s.credit_window s.limit s.count credit s.calls }

unfoldable pub on_message : Delivery → LatencyReceiver → Run LatencyReceiver
on_message d s = do
  len ← read_message d
  latency ← check_sent d.now (d.sent_at len)
  ok (
      complete d.credit (record (settle (record s { count = u64 (s.count + 1) })) {
        stats = add_latency latency s.stats;
      }))

-- PN_DELIVERY.
unfoldable pub on_delivery : Delivery → LatencyReceiver → Run LatencyReceiver
on_delivery d s =
    if all_received s then ok s else if d.readable && not d.partial then on_message d s else ok s

-- PN_CONNECTION_INIT.
unfoldable pub on_init : LatencyReceiver → LatencyReceiver
on_init s = record s {
  in_message = true;
  pn_ssn = true;
  pn_link = true;
  calls =
      Proton.link_flow s.credit_window
      ∷ Proton.link_open
      ∷ Proton.set_source s.source_address
      ∷ Proton.receiver_new
      ∷ Proton.session_open
      ∷ Proton.connection_open
      ∷ s.calls;
}

unfoldable pub event_handler : Event → LatencyReceiver → Run LatencyReceiver
event_handler connection_init s = ok (on_init s)
event_handler (delivery d) s = on_delivery d s
event_handler unhandled s = ok s
