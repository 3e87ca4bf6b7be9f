-- ===== src/LinkScale/Examples.antt =====
-- A message of 70000 octets in three flows, which arrives in two pieces.
use dispatch_tester.Common.{ℕ, ◌-◌, true, false, ℤ, pos, Bool, if◌then◌else◌, ltb}
use dispatch_tester.Proton
use dispatch_tester.LinkSender.{LinkSender, FlowReads, delivery as disposition}
use dispatch_tester.LinkSender.Main.{batch as send_batch, defaults as sender_defaults}
use dispatch_tester.LinkReceiver.{LinkReceiver, Delivery, delivery}
use dispatch_tester.LinkReceiver.Main.{batch as receive_batch, defaults as receiver_defaults}

abbrev sender : LinkSender
sender = record sender_defaults { body_length = 70000 }

abbrev flow : FlowReads
flow = record {
  link = 1;
  active = true;
  credit = 10;
  current = false;
  made = true;
  writable = true;
  rc = λ n. pos n;
}

-- Up to 65536 octets at a time.
abbrev takes : ℕ → ℤ × ℕ
takes avail = if ltb 65536 avail then (pos 65536, avail - 65536) else (pos avail, 0)

abbrev portion : ℕ → Bool → Delivery
portion pending partial = record { id = 7; pending = pending; recv = takes; partial = partial }
