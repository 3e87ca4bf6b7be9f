-- ===== src/Scale/Sender/Examples.antt =====
-- The scale sender with three messages, and the encode loop at its start.
use dispatch_tester.Common.{ℕ, true, false, [], pos, Returns, if◌then◌else◌, ltb, arith}
use dispatch_tester.Scale.{Answer, overflow, encoded, encode_message}
use dispatch_tester.Scale.Encode.{IsEncoder, Fits, encode_message-total}
use dispatch_tester.Scale.Sender.{AppData, send_loop}
use dispatch_tester.Scale.Sender.Flow.{Sent, send_loop-Sent}

-- A message of 300 octets.
abbrev encode : ℕ → Answer
encode size = if ltb size 300 then overflow size else encoded 300

encode-IsEncoder : IsEncoder 300 encode
encode-IsEncoder = record {
  small = λ size left e. ground arith;
  within = λ size len e. ground arith;
}

encode_message-total_example : Returns Fits (encode_message encode 57 128)
encode_message-total_example = encode_message-total encode-IsEncoder omega arith

abbrev initial : AppData
initial = record {
  count = 3;
  anon = false;
  presettled = true;
  acked = pos 1;
  target = "examples";
  msg_len = 300;
  tag = 0;
  calls = [];
}

send_loop-Sent_example : Sent 3 initial (send_loop 5 initial)
send_loop-Sent_example = send_loop-Sent 5 initial
