-- ===== src/Latency/Session.antt =====
-- A latency sender and a latency receiver with a router between them: each message is delivered, accepted
-- and followed by the next.
use dispatch_tester.Common.{
  ℕ, zero, suc, ◌+◌, ◌-◌, ◌*◌, ◌≤◌, ◌<◌, ◌^◌, ◌≡◌, refl, true, false, pos, ok, [], ◌∷◌, arith, ap,
  Option, some,
}
use dispatch_tester.Proton.Message.{Message, Encoded}
use dispatch_tester.Latency.Accounts.{IsFresh}
use dispatch_tester.Latency.{Stats}
use dispatch_tester.Latency.Sender
use dispatch_tester.Latency.Sender.{LatencySender, SendReads, buffer_size}
use dispatch_tester.Latency.Receiver
use dispatch_tester.Latency.Receiver.{LatencyReceiver, Delivery, max_size}
use dispatch_tester.Latency.Pair.{IsSteady, send_msg-Sent, granted, IsStream, IsReady}
use dispatch_tester.Latency.Exchange.{
  Clocks, IsSynchronous, grant, exchanges, IsWaiting, IsDone, Totals, exchange-next, exchange-last,
  stamped, stamp, IsDecoder,
}

-- The globals of a receiver that waits for `n` messages.
pub record IsOpen (n : ℕ) (r : LatencyReceiver) : Type 0 where
  pub none_received : r.count ≡ 0
  pub limit : r.limit ≡ n
  pub window : 0 < r.credit_window
  pub running : r.stop ≡ false
  pub no_total : r.stats.total ≡ 0
  pub no_calls : r.calls ≡ []

module _ (need : ℕ) (encode : Message → ℕ → Encoded) (read : Message → Option ℕ) (c : Clocks)
    (found : Delivery) (n d : ℕ) (steady : IsSteady need encode) (decoder : IsDecoder read)
    (clock : IsSynchronous n d c) (readable : found.readable ≡ true) (full : found.partial ≡ false)
    (room : found.pending ≤ max_size) (stream : IsStream found.recv) (word : n < 2 ^ 64)
    (sum : n * d < 2 ^ 64) where
  exchanges-IsDone :
      (more k : ℕ) (s : LatencySender) (r : LatencyReceiver)
      → k + suc more ≡ n
      → IsReady n k r
      → IsWaiting n k s
      → s.send_ts ≡ c.sent k
      → stamp read s ≡ some (c.sent k)
      → Totals k d s r
      → (t : LatencySender) × (u : LatencyReceiver) × (exchanges encode read c found k
            (suc more)
            (s, r)
          ≡ ok (t, u))
        × IsReady n n u
        × IsDone n t
        × Totals n d t u
  unfolding exchanges
  exchanges-IsDone zero k s r e v q ts m w =
      let (t, u, run, ready, done, totals) =
        exchange-last need encode read c found n d steady decoder clock readable full room stream
          word sum k s r (omega arith) v q ts m w in
      let same : k + 1 ≡ n = (omega (arith, e)) in
      (t, u, (rw run refl), (rw same at ready), done, (rw same at totals))
  exchanges-IsDone (suc more) k s r e v q ts m w =
      let (t, u, run, ready, waiting, ts', m', totals) =
        exchange-next need encode read c found n d steady decoder clock readable full room stream
          word sum k s r (omega arith) v q ts m w in
      let (t', u', rest, all, done, sums) =
        exchanges-IsDone more (k + 1) t u (omega arith) ready waiting ts' m' totals in
      (t', u', (rw run rest), all, done, sums)

  begins :
      (s : LatencySender) (r : LatencyReceiver)
      → 0 < n
      → IsFresh s
      → s.limit ≡ n
      → s.stop ≡ false
      → 0 < granted r
      → (t : LatencySender) × (Sender.run encode
            (Sender.connection_init
              ∷ Sender.link_flow (grant encode read c found (granted r) 0)
              ∷ [])
            s
          ≡ ok t)
        × IsWaiting n 0 t
        × (t.send_ts ≡ c.sent 0)
        × (stamp read t ≡ some (c.sent 0))
        × (t.stats ≡ s.stats)
  unfolding Sender.run Sender.event_handler Sender.on_init
  begins s r positive f limit running credit =
      let (t, run, sent) =
        send_msg-Sent need encode (grant encode read c found (granted r) 0) (Sender.on_init s)
          steady
          (record { amount = granted r - 1; credit = ap pos (omega arith); takes = λ i h. refl })
          f.idle (ground (arith, f.none_sent, limit)) (omega (arith, f.none_sent))
          (ground (arith, f.no_buffer)) in
      (
        t,
        (ground (arith, running, run)),
        (ground (arith, sent, f, running, limit)),
        sent.send_ts,
        stamped need encode read c found n d steady decoder clock readable full room stream word sum
            0 (Sender.on_init s) t positive sent.held,
        sent.stats,
      )

  opens : (r : LatencyReceiver) → 0 < n → IsOpen n r → IsReady n 0 (Receiver.on_init r)
  unfolding Receiver.on_init
  opens r positive o = (ground (arith, o.no_calls, o.running))

  -- A fresh latency sender and a fresh latency receiver for the same limit `n`, not zero, below
  -- 2^64, with an encoder that encodes every message into at most 2^63 octets, a decoder that
  -- reads the unsigned long with which the list in a message begins, messages of at most the size
  -- of the buffer that come in octet by octet or in parts up to PN_EOS, and clocks that are set,
  -- do not run backwards and give each message at most `d` microseconds there and back, where `n`
  -- times `d` is below 2^64: when each message that the sender completed is delivered as its
  -- buffer holds it and accepted, exactly `n` are written, completed, settled and counted as sent
  -- and as accepted, both clients stop, and the latencies that the receiver takes from the time
  -- stamps in the messages never exceed those of the sender in all, which are at most `n` times
  -- `d`.
  pub latency_completes :
      (s : LatencySender) (r : LatencyReceiver)
      → 0 < n
      → IsFresh s
      → s.limit ≡ n
      → s.stop ≡ false
      → s.stats.total ≡ 0
      → IsOpen n r
      → let first = grant encode read c found (granted (Receiver.on_init r)) 0 in
        (b : LatencySender) × (t : LatencySender) × (u : LatencyReceiver) × (Sender.run encode
            (Sender.connection_init ∷ Sender.link_flow first ∷ [])
            s
          ≡ ok b)
        × (exchanges encode read c found 0 n (b, Receiver.on_init r) ≡ ok (t, u))
        × IsDone n t
        × (u.count ≡ n)
        × (u.stop ≡ true)
        × (u.stats.total ≤ t.stats.total)
        × (t.stats.total ≤ n * d)
  unfolding Receiver.on_init
  latency_completes s r positive f limit running total o =
      let ready = opens r positive o in
      let (b, begun, waiting, ts, m, stats) =
        begins s (Receiver.on_init r) positive f limit running (ready.supply positive) in
      let none : Totals 0 d b (Receiver.on_init r) =
        (ground (arith, o.no_total, total, ap (λ (st : Stats). st.total) stats)) in
      let (t, u, run, done, finished, totals) =
        exchanges-IsDone (n - 1) 0 b (Receiver.on_init r) (omega arith) ready waiting ts m none in
      let same : suc (n - 1) ≡ n = (omega arith) in
      (
        b,
        t,
        u,
        begun,
        (rw same at run),
        finished,
        done.count,
        (ground (arith, done.stop)),
        totals.slower,
        totals.bound,
      )
