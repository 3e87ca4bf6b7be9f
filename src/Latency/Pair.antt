-- ===== src/Latency/Pair.antt =====
-- What one message does to the latency sender and to the latency receiver, when nothing goes wrong.
use dispatch_tester.Common.{
  ℕ, zero, suc, ◌+◌, ◌-◌, ◌≤◌, ◌<◌, ◌^◌, ◌≡◌, ◌≢◌, refl, ap, ◌∷◌, ◌∙◌, true, false, some, ℤ, pos,
  negsuc, sum_of, count_if, u64, ok, Returns-ok, ◌==◌, arith,
}
use dispatch_tester.Proton
use dispatch_tester.Proton.Message.{Message, Encoded, failed, encoded, encode_fuel}
use dispatch_tester.Proton.Message.Encode.{IsEncoder, encode_loop-total, encode_loop-Returns}
use dispatch_tester.Proton.Credit.{replenish_window}
use dispatch_tester.Latency.{add_latency}
use dispatch_tester.Latency.Sender.{
  LatencySender, SendReads, may_send, message, buffer_size, write_out, next_message,
  generate_message, send_msg, acknowledge,
}
use dispatch_tester.Latency.Receiver.{
  LatencyReceiver, Delivery, max_size, read_all, read_message, settle, complete, on_message,
  on_delivery,
}

-- An encoder that encodes every message, into at most `need` octets.
pub record IsSteady (need : ℕ) (encode : Message → ℕ → Encoded) : Type 0 where
  pub small : need ≤ 2 ^ 63
  pub law : (m : Message) → IsEncoder need (encode m)
  pub good : (m : Message) (n : ℕ) → encode m n ≢ failed
  pub short : (m : Message) (n len : ℕ) → encode m n ≡ encoded len → len ≤ need

-- Credit, and a library that takes the message.
pub record IsGrant (r : SendReads) : Type 0 where
  pub amount : ℕ
  pub credit : r.credit ≡ pos (suc amount)
  pub takes : (n : ℕ) → n < 2 ^ 64 → r.rc n ≡ pos n

-- What changes when a message is sent.
pub record Sent (now : ℕ) (s t : LatencySender) : Type 0 where
  pub count : t.count ≡ s.count + 1
  pub limit : t.limit ≡ s.limit
  pub acked : t.acked ≡ s.acked
  pub accepted : t.accepted ≡ s.accepted
  pub not_accepted : t.not_accepted ≡ s.not_accepted
  pub pending : t.pending_ack ≡ true
  pub stop : t.stop ≡ s.stop
  pub send_ts : t.send_ts ≡ now
  pub held : t.held ≡ some (message s now)
  pub deliveries : count_if Proton.is_delivery t.calls ≡ count_if Proton.is_delivery s.calls + 1
  pub writes : count_if Proton.is_send t.calls ≡ count_if Proton.is_send s.calls + 1
  pub advances : count_if Proton.is_advance t.calls ≡ count_if Proton.is_advance s.calls + 1
  pub settles : count_if Proton.is_settle t.calls ≡ count_if Proton.is_settle s.calls
  pub stats : t.stats ≡ s.stats
  pub buffer : 0 < buffer_size t

generate_message-ok :
    (need : ℕ) (encode : Message → ℕ → Encoded) (now : ℕ) (s : LatencySender)
    → IsSteady need encode
    → 0 < buffer_size s
    → (buffer : ℕ) × (len : ℕ) × (0 < buffer)
      × (len ≤ need)
      × (generate_message encode now s
          ≡ ok (record s {
            encode_buffer = true;
            held = some (message s now);
            encode_buffer_size = buffer;
            encoded_data_size = len;
          }))
unfolding generate_message
generate_message-ok need encode now s e room =
    let m : Message = message s now in
    let (found, run, fits) =
      Returns-ok (λ (r : ℕ × ℕ). (0 < r.0) × (r.1 ≤ need)) _
        (encode_loop-Returns need (encode m) encode_fuel (buffer_size s) (e.good m) (e.short m)
          (encode_loop-total (e.law m) e.small (buffer_size s) room)) in
    (found.0, found.1, fits.0, fits.1, (rw run refl))

-- The state with a message of `len` octets on its way.
abbrev sent : SendReads → ℕ → ℕ → LatencySender → LatencySender
sent r buffer len s = record (next_message r s) {
  encode_buffer = true;
  held = some (message (next_message r s) r.now);
  encode_buffer_size = buffer;
  encoded_data_size = len;
  pending_ack = true;
  calls = Proton.link_advance ∷ Proton.link_send len ∷ (next_message r s).calls;
}

-- A message that may be sent is sent.
pub send_msg-Sent :
    (need : ℕ) (encode : Message → ℕ → Encoded) (r : SendReads) (s : LatencySender)
    → IsSteady need encode
    → IsGrant r
    → s.pending_ack ≡ false
    → may_send s ≡ true
    → s.count + 1 < 2 ^ 64
    → 0 < buffer_size s
    → (t : LatencySender) × (send_msg encode r s ≡ ok t) × Sent r.now s t
unfolding send_msg next_message write_out message
send_msg-Sent need encode r s e g idle more word room =
    let (buffer, len, positive, fits, run) =
      generate_message-ok need encode r.now (next_message r s) e room in
    let size : len < 2 ^ 64 = (omega (arith, e.small, fits)) in
    (sent r buffer len s, (ground (arith, g.credit, run, g.takes len size)), ground arith)

-- The octets of a delivery come in a part at a time, up to PN_EOS.
abbrev pub IsStream : (ℕ → ℕ → ℤ × ℕ) → Type 0
IsStream recv =
    (pending avail : ℕ)
    → pending ≤ avail
    → ((pending ≡ 0) → (recv pending avail).0 ≡ negsuc 0)
      × (0 < pending
          → (n : ℕ) × ((recv pending avail).0 ≡ pos (suc n))
            × (suc n ≤ pending)
            × ((recv pending avail).1 ≡ pending - suc n))

read_all-whole :
    (recv : ℕ → ℕ → ℤ × ℕ) (fuel pending avail : ℕ)
    → IsStream recv
    → pending < fuel
    → pending ≤ avail
    → read_all recv fuel pending avail ≡ ok (negsuc 0, avail - pending)
unfolding read_all
read_all-whole recv zero pending avail v h room = absurd (omega arith)
read_all-whole recv (suc fuel) zero avail v h room =
    (ground (arith, (v zero avail (omega arith)).0 refl))
read_all-whole recv (suc fuel) (suc pending) avail v h room =
    let (n, read, some_octets, left) = (v (suc pending) avail room).1 (omega arith) in
    let rest =
      read_all-whole recv fuel (suc pending - suc n) (avail - suc n) v (omega (arith, some_octets))
        (omega (arith, some_octets)) in
    rw (read, read_all, left) (rest ∙ ap (λ a. ok (negsuc 0, a)) (omega (arith, some_octets)))

-- What an acknowledgement changes.
pub record Acked (latency : ℕ) (s t : LatencySender) : Type 0 where
  pub count : t.count ≡ s.count
  pub limit : t.limit ≡ s.limit
  pub acked : t.acked ≡ s.acked + 1
  pub accepted : t.accepted ≡ s.accepted + 1
  pub not_accepted : t.not_accepted ≡ s.not_accepted
  pub pending : t.pending_ack ≡ false
  pub stop : t.stop ≡ s.stop
  pub total : t.stats.total ≡ s.stats.total + latency
  pub buffer : buffer_size t ≡ buffer_size s
  pub deliveries : count_if Proton.is_delivery t.calls ≡ count_if Proton.is_delivery s.calls
  pub writes : count_if Proton.is_send t.calls ≡ count_if Proton.is_send s.calls
  pub advances : count_if Proton.is_advance t.calls ≡ count_if Proton.is_advance s.calls
  pub settles : count_if Proton.is_settle t.calls ≡ count_if Proton.is_settle s.calls + 1

pub acknowledge-Acked :
    (now : ℕ) (s : LatencySender)
    → s.accepted ≡ s.acked
    → s.acked + 1 < 2 ^ 64
    → s.send_ts ≤ now
    → now < 2 ^ 64
    → s.stats.total + (now - s.send_ts) < 2 ^ 64
    → Acked (now - s.send_ts) s (acknowledge Proton.accepted now s)
unfolding acknowledge add_latency
acknowledge-Acked now s same word after clock sum = ground arith

abbrev pub granted : LatencyReceiver → ℕ
granted r = sum_of Proton.credits r.calls

-- A message that can be read, in a stream, with a time stamp before its arrival.
pub record IsWhole (ts : ℕ) (d : Delivery) : Type 0 where
  pub readable : d.readable ≡ true
  pub full : d.partial ≡ false
  pub room : d.pending ≤ max_size
  pub stream : IsStream d.recv
  pub stamp : (len : ℕ) → d.sent_at len ≡ some ts
  pub after : ts ≤ d.now
  pub set : 0 < ts

-- The receiver after `k` of `n` messages.
pub record IsReady (n k : ℕ) (r : LatencyReceiver) : Type 0 where
  pub count : r.count ≡ k
  pub limit : r.limit ≡ n
  pub window : 0 < r.credit_window
  pub within : granted r ≤ k + r.credit_window
  pub supply : k < n → k < granted r
  pub stop : r.stop ≡ (k == n)

read_message-whole : (ts : ℕ) (d : Delivery) → IsWhole ts d → (len : ℕ) × (read_message d ≡ ok len)
unfolding read_message
read_message-whole ts d v =
    let run =
      read_all-whole d.recv (suc d.pending) d.pending max_size v.stream (omega arith) v.room in
    (max_size - (max_size - d.pending), (ground (arith, run, v.room)))

-- The receiver with the message counted, settled and measured.
abbrev measured : ℕ → LatencyReceiver → LatencyReceiver
measured latency r = record (settle (record r { count = u64 (r.count + 1) })) {
  stats = add_latency latency r.stats;
}

complete-IsReady :
    (latency credit n k : ℕ) (r : LatencyReceiver)
    → IsReady n k r
    → k < n
    → n < 2 ^ 64
    → credit + (k + 1) ≡ granted r
    → IsReady n (k + 1) (complete credit (measured latency r))
unfolding complete settle
complete-IsReady latency credit n k r v less word e =
    (ground (
      arith,
      replenish_window r.credit_window r.limit (k + 1) credit
          (Proton.delivery_settle ∷ Proton.delivery_update Proton.accepted ∷ r.calls),
    ))

complete-total :
    (latency credit : ℕ) (r : LatencyReceiver)
    → r.stats.total + latency < 2 ^ 64
    → (complete credit (measured latency r)).stats.total ≡ r.stats.total + latency
unfolding complete settle add_latency
complete-total latency credit r sum = ground arith

-- A message that arrives: it is counted and measured, and the receiver is ready for the next.
pub on_delivery-IsReady :
    (ts n k : ℕ) (d : Delivery) (r : LatencyReceiver)
    → IsWhole ts d
    → IsReady n k r
    → k < n
    → n < 2 ^ 64
    → d.credit + (k + 1) ≡ granted r
    → r.stats.total + (d.now - ts) < 2 ^ 64
    → (t : LatencyReceiver) × (on_delivery d r ≡ ok t)
      × IsReady n (k + 1) t
      × (t.stats.total ≡ r.stats.total + (d.now - ts))
unfolding on_delivery on_message
on_delivery-IsReady ts n k d r v w less word e sum =
    let (len, read) = read_message-whole ts d v in
    let latency : ℕ = d.now - ts in
    let t : LatencyReceiver = complete d.credit (measured latency r) in
    (
      t,
      (ground (arith, read, v.stamp len, v.readable, v.full, v.after, v.set, w.count, w.limit)),
      complete-IsReady latency d.credit n k r w less word e,
      complete-total latency d.credit r sum,
    )
