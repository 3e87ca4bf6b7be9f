-- ===== src/Scale/Examples.antt =====
-- A scale sender and a scale receiver with five messages, in a window of three.
use dispatch_tester.Common.{true, false, [], pos}
use dispatch_tester.Proton
use dispatch_tester.Scale.Sender
use dispatch_tester.Scale.Receiver

abbrev sender : Sender.AppData
sender = record {
  count = 5;
  anon = false;
  presettled = false;
  acked = pos 1;
  target = "examples";
  msg_len = 300;
  tag = 0;
  calls = [];
}

abbrev receiver : Receiver.AppData
receiver = record { count = 5; credit = 3; source = "examples"; quiet = true; calls = [] }

abbrev full : Receiver.Delivery
full = record {
  readable = true;
  partial = false;
  pending = 300;
  recv = pos 300;
  settled = false;
  credit = 0;
}
