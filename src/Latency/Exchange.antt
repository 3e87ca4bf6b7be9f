-- ===== src/Latency/Exchange.antt =====
-- One message of the latency benchmark, from the sender to the receiver and back.
use native.Mathlib.Nat.{mul-le-mul, le_refl}
use dispatch_tester.Common.{
  ℕ, zero, suc, ◌+◌, ◌-◌, ◌*◌, ◌≤◌, ◌<◌, ◌^◌, ◌≡◌, refl, ◌∙◌, true, false, some, pos, ok, Run,
  ◌>>=◌, ◌∷◌, ◌==◌, arith, sym, ap, Option, none, List, count_if, ltb, if◌then◌else◌,
}
use dispatch_tester.Proton
use dispatch_tester.Proton.Message.{Message, Encoded, DataCall, put_list, enter, put_ulong}
use dispatch_tester.Latency.{Stats}
use dispatch_tester.Latency.Sender
use dispatch_tester.Latency.Sender.{LatencySender, SendReads, buffer_size}
use dispatch_tester.Latency.Receiver
use dispatch_tester.Latency.Receiver.{LatencyReceiver, Delivery, max_size}
use dispatch_tester.Latency.Pair.{
  IsSteady, send_msg-Sent, Acked, acknowledge-Acked, granted, IsStream, IsReady,
  on_delivery-IsReady,
}

-- The clocks at which message `i` is sent, arrives and is acknowledged.
pub record Clocks : Type 0 where
  pub sent : ℕ → ℕ
  pub arrived : ℕ → ℕ
  pub acked : ℕ → ℕ

-- For `n` messages they are set and do not run backwards, and none takes longer than `d` there and back.
pub record IsSynchronous (n d : ℕ) (c : Clocks) : Type 0 where
  pub set : (i : ℕ) → i < n → 0 < c.sent i
  pub there : (i : ℕ) → i < n → c.sent i ≤ c.arrived i
  pub back : (i : ℕ) → i < n → c.arrived i ≤ c.acked i
  pub word : (i : ℕ) → i < n → c.acked i < 2 ^ 64
  pub short : (i : ℕ) → i < n → c.acked i ≤ c.sent i + d

-- `read m` is what the receiver finds in a message: the unsigned long at the beginning of a list.
abbrev pub IsDecoder : (Message → Option ℕ) → Type 0
IsDecoder read =
    (m : Message) (ts : ℕ) (rest : List DataCall)
    → ts < 2 ^ 64
    → m.body ≡ put_list ∷ enter ∷ put_ulong ts ∷ rest
    → read m ≡ some ts

-- The time stamp in what the buffer of the sender holds.
abbrev pub stamp : (Message → Option ℕ) → LatencySender → Option ℕ
stamp read s = elim s.held [ none ↦ none | some m ↦ read m ]

-- The messages that the sender has written and completed.
abbrev pub completed : LatencySender → ℕ
completed s = count_if Proton.is_advance s.calls

module _ (encode : Message → ℕ → Encoded) (read : Message → Option ℕ) (c : Clocks)
    (found : Delivery) where
  -- What the sender finds with `credit` when it may send message `i`: the library takes what it is given.
  abbrev pub grant : ℕ → ℕ → SendReads
  grant credit i = record { credit = pos credit; now = c.sent i; rc = λ n. pos n }

  -- Message `i`, with the time stamp that is read in it.
  abbrev pub arrival : ℕ → Option ℕ → LatencyReceiver → Delivery
  arrival i ts r = record found {
    now = c.arrived i;
    sent_at = λ len. ts;
    credit = granted r - (r.count + 1);
  }

  -- Message `i`, once it is completed, arrives, and its acknowledgement lets the sender send the next.
  unfoldable pub exchange :
      ℕ → LatencySender × LatencyReceiver → Run (LatencySender × LatencyReceiver)
  exchange i (s, r) =
      let there : Run LatencyReceiver =
        Receiver.event_handler (Receiver.delivery (arrival i (stamp read s) r)) r in
      if ltb i (completed s)
      then (there >>= λ u.
          Sender.event_handler encode
            (Sender.delivery true Proton.accepted (c.acked i) (grant (granted u - u.count) (i + 1)))
            s
          >>= λ t. ok (t, u))
      else ok (s, r)

  -- `n` messages, from number `i` on.
  unfoldable pub exchanges :
      ℕ → ℕ → LatencySender × LatencyReceiver → Run (LatencySender × LatencyReceiver)
  exchanges i zero p = ok p
  exchanges i (suc n) p = exchange i p >>= exchanges (i + 1) n

-- The sender with `k` messages acknowledged and one on its way.
pub record IsWaiting (n k : ℕ) (s : LatencySender) : Type 0 where
  pub count : s.count ≡ k + 1
  pub limit : s.limit ≡ n
  pub acked : s.acked ≡ k
  pub accepted : s.accepted ≡ k
  pub none_failed : s.not_accepted ≡ 0
  pub pending : s.pending_ack ≡ true
  pub stop : s.stop ≡ false
  pub buffer : 0 < buffer_size s
  pub deliveries : count_if Proton.is_delivery s.calls ≡ k + 1
  pub writes : count_if Proton.is_send s.calls ≡ k + 1
  pub advances : count_if Proton.is_advance s.calls ≡ k + 1
  pub settles : count_if Proton.is_settle s.calls ≡ k

-- The sender at the end.
pub record IsDone (n : ℕ) (s : LatencySender) : Type 0 where
  pub count : s.count ≡ n
  pub acked : s.acked ≡ n
  pub accepted : s.accepted ≡ n
  pub none_failed : s.not_accepted ≡ 0
  pub pending : s.pending_ack ≡ false
  pub stop : s.stop ≡ true
  pub deliveries : count_if Proton.is_delivery s.calls ≡ n
  pub writes : count_if Proton.is_send s.calls ≡ n
  pub advances : count_if Proton.is_advance s.calls ≡ n
  pub settles : count_if Proton.is_settle s.calls ≡ n

-- The latencies taken so far: those to the receiver never exceed those to the acknowledgement.
pub record Totals (k d : ℕ) (s : LatencySender) (r : LatencyReceiver) : Type 0 where
  pub slower : r.stats.total ≤ s.stats.total
  pub bound : s.stats.total ≤ k * d

Totals-more :
    (k d a b : ℕ) (s t : LatencySender) (r u : LatencyReceiver)
    → Totals k d s r
    → a ≤ b
    → b ≤ d
    → u.stats.total ≡ r.stats.total + a
    → t.stats.total ≡ s.stats.total + b
    → Totals (k + 1) d t u
Totals-more k d a b s t r u v h w e f = record {
  slower = omega (arith, v.slower, e, f);
  bound = omega (arith, v.bound, f);
}

fits : (k n d : ℕ) → k < n → n * d < 2 ^ 64 → k * d + d < 2 ^ 64
fits k n d less word = (omega (arith, mul-le-mul less (le_refl d)))

module _ (need : ℕ) (encode : Message → ℕ → Encoded) (read : Message → Option ℕ) (c : Clocks)
    (found : Delivery) (n d : ℕ) (steady : IsSteady need encode) (decoder : IsDecoder read)
    (clock : IsSynchronous n d c) (readable : found.readable ≡ true) (full : found.partial ≡ false)
    (room : found.pending ≤ max_size) (stream : IsStream found.recv) (word : n < 2 ^ 64)
    (sum : n * d < 2 ^ 64) where
  arrives :
      (k : ℕ) (s : LatencySender) (r : LatencyReceiver)
      → k < n
      → IsReady n k r
      → stamp read s ≡ some (c.sent k)
      → Totals k d s r
      → (u : LatencyReceiver) × (Receiver.event_handler
            (Receiver.delivery (arrival encode read c found k (stamp read s) r))
            r
          ≡ ok u)
        × IsReady n (k + 1) u
        × (u.stats.total ≡ r.stats.total + (c.arrived k - c.sent k))
  unfolding Receiver.event_handler
  arrives k s r less v e w =
      on_delivery-IsReady (c.sent k) n k (arrival encode read c found k (stamp read s) r) r
        (record {
          readable = readable;
          full = full;
          room = room;
          stream = stream;
          stamp = λ len. e;
          after = clock.there k less;
          set = clock.set k less;
        })
        v less word (ground (arith, v.count, v.supply))
        (omega
          (arith, w.slower, w.bound, clock.back k less, clock.short k less, fits k n d less sum))

  acknowledged :
      (k : ℕ) (s : LatencySender) (r : LatencyReceiver)
      → k < n
      → IsWaiting n k s
      → s.send_ts ≡ c.sent k
      → Totals k d s r
      → Acked (c.acked k - s.send_ts) s (Sender.acknowledge Proton.accepted (c.acked k) s)
  acknowledged k s r less v e w =
      acknowledge-Acked (c.acked k) s (v.accepted ∙ sym v.acked)
        (omega (arith, v.acked, less, word))
        (omega (arith, e, clock.there k less, clock.back k less)) (clock.word k less)
        (omega (arith, e, w.bound, clock.short k less, fits k n d less sum))

  -- The totals once the message has been there and back.
  both-Totals :
      (k : ℕ) (s t : LatencySender) (r u : LatencyReceiver)
      → k < n
      → s.send_ts ≡ c.sent k
      → Totals k d s r
      → u.stats.total ≡ r.stats.total + (c.arrived k - c.sent k)
      → t.stats.total ≡ s.stats.total + (c.acked k - s.send_ts)
      → Totals (k + 1) d t u
  both-Totals k s t r u less e w there back =
      Totals-more k d (c.arrived k - c.sent k) (c.acked k - s.send_ts) s t r u w
        (omega (arith, e, clock.there k less, clock.back k less))
        (omega (arith, e, clock.short k less)) there back

  -- The message in the buffer has the time stamp with which it was encoded.
  pub stamped :
      (k : ℕ) (s t : LatencySender)
      → k < n
      → t.held ≡ some (Sender.message s (c.sent k))
      → stamp read t ≡ some (c.sent k)
  unfolding Sender.message
  stamped k s t less e =
      let word : c.sent k < 2 ^ 64 =
        (omega (arith, clock.there k less, clock.back k less, clock.word k less)) in
      rw e (decoder (Sender.message s (c.sent k)) (c.sent k) _ word refl)

  -- A message that is not the last is followed by the next.
  pub exchange-next :
      (k : ℕ) (s : LatencySender) (r : LatencyReceiver)
      → k + 1 < n
      → IsReady n k r
      → IsWaiting n k s
      → s.send_ts ≡ c.sent k
      → stamp read s ≡ some (c.sent k)
      → Totals k d s r
      → (t : LatencySender) × (u : LatencyReceiver) × (exchange encode read c found k (s, r)
          ≡ ok (t, u))
        × IsReady n (k + 1) u
        × IsWaiting n (k + 1) t
        × (t.send_ts ≡ c.sent (k + 1))
        × (stamp read t ≡ some (c.sent (k + 1)))
        × Totals (k + 1) d t u
  unfolding exchange Sender.event_handler Sender.on_update Sender.send_more
  exchange-next k s r less v q e e' w =
      let (u, here, ready, there) = arrives k s r (omega arith) v e' w in
      let arrived : ltb k (completed s) ≡ true = (ground (arith, q.advances)) in
      let ack = acknowledged k s r (omega arith) q e w in
      let a : LatencySender = Sender.acknowledge Proton.accepted (c.acked k) s in
      let reads : SendReads = grant encode read c found (granted u - u.count) (k + 1) in
      let supply : u.count < granted u = (ground (arith, ready.supply, ready.count)) in
      let may : Sender.may_send a ≡ true =
        (ground (arith, ack.count, ack.limit, q.count, q.limit)) in
      let (t, run, sent) =
        send_msg-Sent need encode reads a steady
          (record {
            amount = granted u - u.count - 1;
            credit = ap pos (omega arith);
            takes = λ n h. refl;
          })
          ack.pending may (omega (arith, ack.count, q.count, less, word))
          (rw ack.buffer q.buffer) in
      (
        t,
        u,
        (rw (arrived, here, may, run) refl),
        ready,
        (ground (arith, sent, ack, q)),
        sent.send_ts,
        stamped (k + 1) a t less sent.held,
        both-Totals k s t r u (omega arith) e w there
            (ap (λ (st : Stats). st.total) sent.stats ∙ ack.total),
      )

  -- After the last message both clients stop.
  pub exchange-last :
      (k : ℕ) (s : LatencySender) (r : LatencyReceiver)
      → k + 1 ≡ n
      → IsReady n k r
      → IsWaiting n k s
      → s.send_ts ≡ c.sent k
      → stamp read s ≡ some (c.sent k)
      → Totals k d s r
      → (t : LatencySender) × (u : LatencyReceiver) × (exchange encode read c found k (s, r)
          ≡ ok (t, u))
        × IsReady n (k + 1) u
        × IsDone n t
        × Totals (k + 1) d t u
  unfolding exchange Sender.event_handler Sender.on_update Sender.send_more
  exchange-last k s r last v q e e' w =
      let (u, here, ready, there) = arrives k s r (omega arith) v e' w in
      let arrived : ltb k (completed s) ≡ true = (ground (arith, q.advances)) in
      let ack = acknowledged k s r (omega arith) q e w in
      let a : LatencySender = Sender.acknowledge Proton.accepted (c.acked k) s in
      let full : Sender.may_send a ≡ false =
        (ground (arith, ack.count, ack.limit, q.count, q.limit)) in
      let all : (a.acked == a.limit) ≡ true =
        (ground (arith, ack.acked, ack.limit, q.acked, q.limit)) in
      let t : LatencySender = record a { stop = true; calls = Proton.wakeup ∷ a.calls } in
      (
        t,
        u,
        (rw (arrived, here, full, all) refl),
        ready,
        (ground (arith, ack, q)),
        both-Totals k s t r u (omega arith) e w there ack.total,
      )
