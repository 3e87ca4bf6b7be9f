-- ===== src/Receiver.antt =====
-- benchmarks/clients/src/receiver.c: the benchmark receiver and its latency statistics.
pub mod Window
mod Latency
pub mod Main
mod Examples
use dispatch_tester.Common.{
  ℕ, ◌+◌, String, Bool, true, false, not, ◌&&◌, if◌then◌else◌, ltb, ◌==◌, Option, none, some, List,
  [], ◌∷◌, u64, ℤ, pos, ◌+ℤ◌, ◌-ℤ◌, lt_ℤ, square, word64,
}
use dispatch_tester.Proton
use dispatch_tester.Proton.Credit.{replenish}

pub record Receiver : Type 0 where
  pub stop : Bool
  pub min_latency : ℤ
  pub max_latency : ℤ
  pub total_latency : ℤ
  pub sum_of_squares : ℕ
  pub start_ts : ℕ
  pub latency_count : ℕ
  pub credit_window : ℕ
  pub check_latency : Bool
  pub source_address : String
  pub host_address : String
  pub container_name : String
  pub pn_ssn : Bool
  pub pn_link : Bool
  pub in_message : Bool
  pub count : ℕ
  pub limit : ℕ
  pub calls : List Proton.Call

abbrev pub max_size : ℕ
max_size = 65536

-- What a PN_DELIVERY finds. `recv` is the answer of `pn_link_recv`; `sent_at n` is the time stamp that
-- the decoder finds in a message of `n` octets, if it decodes to a list of two or more elements with a
-- long in front; `now` is the clock at that point.
pub record Delivery : Type 0 where
  pub readable : Bool
  pub partial : Bool
  pub pending : ℕ
  pub first : ℕ
  pub recv : ℤ
  pub sent_at : ℕ → Option ℤ
  pub now : ℕ
  pub credit : ℕ

pub data Event : Type 0 where
  connection_init : Event
  delivery : Delivery → Event
  unhandled : Event

-- `limit && count == limit`.
abbrev pub all_received : Receiver → Bool
all_received s = not (s.limit == 0) && s.count == s.limit

-- The sums are taken in `int64_t`; their overflow, which C leaves undefined, is not modelled.
unfoldable pub add_latency : ℤ → Receiver → Receiver
add_latency latency s = record s {
  min_latency = if lt_ℤ latency s.min_latency then latency else s.min_latency;
  max_latency = if lt_ℤ s.max_latency latency then latency else s.max_latency;
  total_latency = s.total_latency +ℤ latency;
  sum_of_squares = s.sum_of_squares + square latency;
  latency_count = s.latency_count + 1;
}

-- `size_t len = pn_link_recv(...)`: the length that the decoder is given, if it is called.
unfoldable pub decoded_length : Delivery → Option ℕ
decoded_length d =
    let len : ℕ = word64 d.recv in
    if ltb d.pending max_size then (if ltb 0 len then some len else none) else none

-- What the decoder found.
unfoldable pub decode : Delivery → Option ℤ → Receiver → Receiver
decode d none s = s
decode d (some ts) s = add_latency (pos d.now -ℤ ts) s

unfoldable pub measure : Delivery → Receiver → Receiver
unfolding decode
measure d s = elim (decoded_length d) [ none ↦ s | some len ↦ decode d (d.sent_at len) s ]

-- A full message has arrived: it is counted.
unfoldable pub count_message : Delivery → Receiver → Receiver
count_message d s = record s {
  start_ts = if s.start_ts == 0 then d.first else s.start_ts;
  count = u64 (s.count + 1);
}

-- It is accepted and settled, and the client stops or gives credit.
unfoldable pub complete : Delivery → Receiver → Receiver
complete d b =
    let c : Receiver = record b {
      calls = Proton.delivery_settle ∷ Proton.delivery_update Proton.accepted ∷ b.calls;
    } in
    if all_received c
    then record c { stop = true; calls = Proton.wakeup ∷ c.calls }
    else record c { calls = replenish c.credit_window c.limit c.count d.credit c.calls }

unfoldable pub on_message : Delivery → Receiver → Receiver
on_message d s =
    let a : Receiver = count_message d s in complete d (if s.check_latency then measure d a else a)

-- PN_DELIVERY.
unfoldable pub on_delivery : Delivery → Receiver → Receiver
on_delivery d s =
    if all_received s then s else if d.readable && not d.partial then on_message d s else s

-- PN_CONNECTION_INIT.
unfoldable pub on_init : Receiver → Receiver
on_init s = record s {
  in_message = true;
  pn_ssn = true;
  pn_link = true;
  calls =
      Proton.link_flow s.credit_window
      ∷ Proton.link_open
      ∷ Proton.set_source s.source_address
      ∷ Proton.receiver_new
      ∷ Proton.session_open
      ∷ Proton.connection_open
      ∷ s.calls;
}

unfoldable pub event_handler : Event → Receiver → Receiver
event_handler connection_init s = on_init s
event_handler (delivery d) s = on_delivery d s
event_handler unhandled s = s

unfoldable pub run : List Event → Receiver → Receiver
run [] s = s
run (e ∷ es) s = run es (event_handler e s)
