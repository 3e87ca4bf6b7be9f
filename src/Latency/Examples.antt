-- ===== src/Latency/Examples.antt =====
-- Runs of the latency benchmark with three messages.
use dispatch_tester.Common.{
  ℕ, zero, suc, ◌+◌, ◌*◌, ◌≤◌, ◌≡◌, refl, true, false, Option, none, some, List, [], ◌∷◌, ℤ, pos,
  negsuc, if◌then◌else◌, ltb, ok, halt, aborted, arith,
}
use dispatch_tester.Proton
use dispatch_tester.Proton.Message.{
  Message, DataCall, put_list, enter, put_ulong, Encoded, overflow, encoded,
}
use dispatch_tester.Proton.Message.Encode.{IsEncoder}
use dispatch_tester.Latency.{report, no_latency}
use dispatch_tester.Latency.Sender
use dispatch_tester.Latency.Sender.{LatencySender, SendReads, Event, link_flow, delivery}
use dispatch_tester.Latency.Sender.Main.{defaults}
use dispatch_tester.Latency.Receiver
use dispatch_tester.Latency.Receiver.{LatencyReceiver, Delivery}
use dispatch_tester.Latency.Receiver.Main.{defaults as receiver_defaults}
use dispatch_tester.Latency.Pair.{IsSteady, IsStream, granted}
use dispatch_tester.Latency.Exchange.{Clocks, grant, exchanges, IsDone, IsDecoder}
use dispatch_tester.Latency.Session.{latency_completes}

-- An encoder that needs 700 octets for any message.
abbrev encode : Message → ℕ → Encoded
encode m size = if ltb size 700 then overflow else encoded 650

encode-IsEncoder : (m : Message) → IsEncoder 700 (encode m)
encode-IsEncoder m = (record {
  enough = λ size h e. ground arith;
  within = λ size len e. ground arith;
})

encode-IsSteady : IsSteady 700 encode
encode-IsSteady = record {
  small = omega arith;
  law = encode-IsEncoder;
  good = λ m size e. ground arith;
  short = λ m size len e. ground arith;
}

-- The unsigned long at the beginning of a list.
abbrev read_body : List DataCall → Option ℕ
read_body (put_list ∷ enter ∷ put_ulong ts ∷ rest) = some ts
read_body _ = none

abbrev read : Message → Option ℕ
read m = read_body m.body

read-IsDecoder : IsDecoder read
read-IsDecoder m ts rest word e = rw e refl

abbrev sender : LatencySender
sender = record defaults { limit = 3 }

abbrev receiver : LatencyReceiver
receiver = record receiver_defaults { limit = 3; credit_window = 2 }

abbrev clocks : Clocks
clocks = record { sent = λ i. 1000 + i; arrived = λ i. 1300 + i; acked = λ i. 1500 + i }

-- All octets at once, then PN_EOS.
abbrev reads : ℕ → ℕ → ℤ × ℕ
reads zero avail = (negsuc 0, 0)
reads (suc pending) avail = (pos (suc pending), 0)

reads-IsStream : IsStream reads
reads-IsStream zero avail h = (λ e. refl, λ p. absurd (omega arith))
reads-IsStream (suc pending) avail h =
    (λ e. absurd (omega arith), λ p. (pending, refl, omega arith, omega arith))

abbrev found : Delivery
found = record {
  readable = true;
  partial = false;
  now = 0;
  pending = 650;
  recv = reads;
  sent_at = λ len. none;
  credit = 0;
}

latency_completes_example :
    let first = grant encode read clocks found (granted (Receiver.on_init receiver)) 0 in
    (b : LatencySender) × (t : LatencySender) × (u : LatencyReceiver) × (Sender.run encode
        (Sender.connection_init ∷ Sender.link_flow first ∷ [])
        sender
      ≡ ok b)
    × (exchanges encode read clocks found 0 3 (b, Receiver.on_init receiver) ≡ ok (t, u))
    × IsDone 3 t
    × (u.count ≡ 3)
    × (u.stop ≡ true)
    × (u.stats.total ≤ t.stats.total)
    × (t.stats.total ≤ 3 * 500)
latency_completes_example =
    latency_completes 700 encode read clocks found 3 500 encode-IsSteady read-IsDecoder
      (record {
        set = λ i h. omega arith;
        there = λ i h. omega arith;
        back = λ i h. omega arith;
        word = λ i h. omega arith;
        short = λ i h. omega arith;
      })
      refl refl (omega arith) reads-IsStream (omega arith) (omega arith) sender receiver
      (omega arith) ground arith refl refl refl ground arith

abbrev later : ℕ → SendReads
later now = record { credit = pos 5; now = now; rc = λ n. pos n }

abbrev events : List Event
events =
    link_flow (later 10)
    ∷ delivery true Proton.accepted 30 (later 31)
    ∷ delivery true Proton.rejected 50 (later 51)
    ∷ []

-- An interrupt before the first message is sent leaves a report over no messages.
divided : report sender.count no_latency ≡ halt aborted
unfolding report
divided = refl
