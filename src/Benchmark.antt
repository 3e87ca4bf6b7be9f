-- ===== src/Benchmark.antt =====
-- The benchmark sender and the benchmark receiver of benchmarks/clients/src/ with a router between them
-- that loses nothing: each round the sender gets the credit of the receiver, its messages arrive whole,
-- and each is accepted.
mod Sending
mod Receiving
mod Rounds
mod Examples
use dispatch_tester.Common.{
  [], ℕ, zero, suc, ◌+◌, ◌-◌, ◌≤◌, ◌<◌, ◌^◌, ◌≡◌, refl, ◌∙◌, Bool, true, false, sym, Bool-cases,
  ltb→lt, inl, inr, ok, Run, ◌>>=◌, >>=-eq-ok, ◌==◌, ltb, u64, count_if, if◌then◌else◌, arith,
}
use dispatch_tester.Proton
use dispatch_tester.Proton.Message.{Message, Encoded, encode_loop, encode_fuel}
use dispatch_tester.Sender
use dispatch_tester.Sender.{Sender, FlowReads, AckReads, link_flow}
use dispatch_tester.Sender.Main.{failure}
use dispatch_tester.Receiver
use dispatch_tester.Receiver.{Receiver, Delivery}
use dispatch_tester.Receiver.Window.{Inv, IsFresh, granted, on_init-Inv}
use dispatch_tester.Benchmark.Sending.{
  IsPlain, Sent, IsPlain-Sent, min_of, on_flow-Sent, Acked, accept, accept-Acked,
}
use dispatch_tester.Benchmark.Rounds.{outstanding, Joint, Joint-step, Joint-at}
use dispatch_tester.Benchmark.Receiving.{IsWhole, IsLive, Got, deliver, deliver-Got}

-- The messages that a sender has written and completed.
abbrev pub completed : Sender → ℕ
completed s = count_if Proton.is_advance s.calls

module _ (encode : Message → ℕ → Encoded) (reads : ℕ → FlowReads) (d : ℕ → Delivery)
    (now : ℕ → AckReads) where
  -- One round, with what the sender's handler finds: the messages that it completed are delivered.
  unfoldable pub exchange : FlowReads → Sender × Receiver → Run (Sender × Receiver)
  exchange found (s, r) =
      Sender.event_handler encode (link_flow (record found { credit = outstanding r })) s >>= λ t.
      ok (accept now (completed t - completed s) t, deliver d (completed t - completed s) r)

  unfoldable pub exchanges : ℕ → Sender × Receiver → Run (Sender × Receiver)
  exchanges zero p = ok p
  exchanges (suc n) p = exchange (reads n) p >>= exchanges n

  exchange-Joint :
      (found : FlowReads) (n k : ℕ) (s : Sender) (r : Receiver)
      → ((i : ℕ) → IsWhole (d i))
      → k < n
      → Joint n k s r
      → (m : ℕ) × (t : Sender) × (u : Receiver) × (exchange found (s, r) ≡ ok (t, u))
        × (k < m)
        × (m ≤ n)
        × Joint n m t u
  unfolding exchange
  exchange-Joint found n k s r f less v =
      let credit : ℕ = outstanding r in
      let some_credit : 0 < credit = (ground (arith, v.live, v.got, v.limit)) in
      let (t, run, sent) =
        on_flow-Sent encode (record found { credit = credit }) n s v.plain
          (omega (arith, v.sent, less)) some_credit in
      let m : ℕ = min_of credit (n - s.count) in
      let same : completed t - completed s ≡ m = (omega (arith, sent.advances)) in
      (
        k + m,
        accept now m t,
        deliver d m r,
        (rw (run, same) refl),
        (ground (arith, v.sent)),
        (ground (arith, v.sent)),
        Joint-step d now n k m s t r f v sent (ground (arith, v.sent)) (ground (arith, v.sent))
            ground arith,
      )

  -- Once all messages are through, a round changes nothing.
  exchange_idle :
      (found : FlowReads) (n : ℕ) (s : Sender) (r : Receiver)
      → 0 < n
      → Joint n n s r
      → exchange found (s, r) ≡ ok (s, r)
  unfolding exchange Sender.event_handler Sender.on_flow accept deliver
  exchange_idle found n s r positive v = (ground (arith, v.plain, v.sent))

  exchanges-Joint :
      (fuel n k : ℕ) (s : Sender) (r : Receiver)
      → ((i : ℕ) → IsWhole (d i))
      → 0 < n
      → k ≤ n
      → n ≤ k + fuel
      → Joint n k s r
      → (t : Sender) × (u : Receiver) × (exchanges fuel (s, r) ≡ ok (t, u)) × Joint n n t u
  unfolding exchanges
  exchanges-Joint zero n k s r f positive low high v =
      (s, r, refl, Joint-at n k n s r (omega arith) v)
  exchanges-Joint (suc fuel) n k s r f positive low high v = elim (Bool-cases (ltb k n)) [
    | inl less ↦
        let (m, t, u, one, more, within, w) =
          exchange-Joint (reads fuel) n k s r f (ltb→lt k n less) v in
        let (t', u', run, all) = exchanges-Joint fuel n m t u f positive within (omega arith) w in
        (t', u', (rw one run), all)
    | inr done ↦
        let all = Joint-at n k n s r ground arith v in
        let (t', u', run, all') =
          exchanges-Joint fuel n n s r f positive (omega arith) (omega arith) all in
        (t', u', (rw (exchange_idle (reads fuel) n s r positive all) run), all')
  ]

-- The globals of a sender that has `n` messages to send without time stamps, to be acknowledged.
pub record IsStart (n : ℕ) (s : Sender) : Type 0 where
  pub limit : s.limit ≡ n
  pub none_sent : s.count ≡ 0
  pub none_accepted : s.accepted ≡ 0
  pub none_failed : s.not_accepted ≡ 0
  pub running : s.stop ≡ false
  pub no_stamps : s.add_timestamp ≡ false
  pub unsettled : s.presettle ≡ false
  pub no_calls : s.calls ≡ []

-- PN_CONNECTION_INIT encodes the message and takes the count for the acknowledgements.
init-Sent :
    (encode : Message → ℕ → Encoded) (begun : ℕ) (s t : Sender)
    → Sender.event_handler encode (Sender.connection_init begun) s ≡ ok t
    → Sent 0 (record s { acked = s.count }) t
unfolding Sender.event_handler Sender.on_init Sender.generate_message Sender.open_endpoints
init-Sent encode begun s t init =
    let o : Sender = Sender.open_endpoints s in
    let (len, _, kept) =
      >>=-eq-ok (encode_loop (encode (Sender.message o begun)) encode_fuel (Sender.buffer_size o))
        (Sender.keep_encoded o) init in
    (ground (arith, kept))

start-Joint :
    (encode : Message → ℕ → Encoded) (begun n : ℕ) (s t : Sender) (r : Receiver)
    → 0 < n
    → n < 2 ^ 64
    → IsStart n s
    → Sender.event_handler encode (Sender.connection_init begun) s ≡ ok t
    → IsFresh r
    → r.limit ≡ n
    → Joint n 0 t (Receiver.on_init r)
unfolding Receiver.on_init
start-Joint encode begun n s t r positive word v init f limit =
    let sent = init-Sent encode begun s t init in
    let accounts = on_init-Inv r f in
    record {
      plain = record {
        word = word;
        limit = sent.limit ∙ v.limit;
        no_stamps = sent.stamps ∙ v.no_stamps;
        unsettled = sent.presettle ∙ v.unsettled;
      };
      sent = omega (arith, sent.count, v.none_sent);
      deliveries = (rw v.no_calls at sent.deliveries);
      writes = (rw v.no_calls at sent.writes);
      advances = (rw v.no_calls at sent.advances);
      acked = omega (arith, sent.acked, v.none_sent);
      accepted = omega (arith, sent.accepted, v.none_accepted);
      none_failed = omega (arith, sent.not_accepted, v.none_failed);
      stop = (ground (arith, sent.stop, v.running));
      got = f.none_received;
      limit = limit;
      live = ground arith;
      accounts = accounts;
    }

-- A benchmark sender with fresh counters and no calls made that neither presettles nor puts time
-- stamps into its messages, whose PN_CONNECTION_INIT returns, and a fresh benchmark receiver, both
-- for the same limit `n`, not zero, below 2^64, on a network where each round gives the sender the
-- outstanding credit, delivers the messages that it completed whole and has each accepted,
-- whatever the clocks say: within `n` rounds exactly `n` messages are counted, given a delivery,
-- written and completed, all are acknowledged as accepted, none is reported as failed, the
-- receiver has counted and settled `n` in 64 bits, and both clients stop.
pub benchmark_completes :
    (encode : Message → ℕ → Encoded) (reads : ℕ → FlowReads) (d : ℕ → Delivery) (now : ℕ → AckReads)
    (begun n : ℕ) (s t : Sender) (r : Receiver)
    → ((i : ℕ) → IsWhole (d i))
    → 0 < n
    → n < 2 ^ 64
    → IsStart n s
    → Sender.event_handler encode (Sender.connection_init begun) s ≡ ok t
    → IsFresh r
    → r.limit ≡ n
    → (t' : Sender) × (r' : Receiver) × (exchanges encode reads d now n (t, Receiver.on_init r)
        ≡ ok (t', r'))
      × (t'.count ≡ n)
      × (count_if Proton.is_delivery t'.calls ≡ n)
      × (count_if Proton.is_send t'.calls ≡ n)
      × (count_if Proton.is_advance t'.calls ≡ n)
      × (t'.accepted ≡ n)
      × (t'.stop ≡ true)
      × (failure t' ≡ false)
      × (r'.count ≡ n)
      × (u64 (count_if Proton.is_settle r'.calls) ≡ n)
      × (r'.stop ≡ true)
unfolding failure
benchmark_completes encode reads d now begun n s t r f positive word v init fresh limit =
    let (t', r', run, all) =
      exchanges-Joint encode reads d now n n 0 t (Receiver.on_init r) f positive (omega arith)
        (omega arith) (start-Joint encode begun n s t r positive word v init fresh limit) in
    (
      t',
      r',
      run,
      all.sent,
      all.deliveries,
      all.writes,
      all.advances,
      all.accepted,
      (ground (arith, all.stop)),
      (ground (arith, all.none_failed)),
      all.got,
      all.accounts.settled ∙ all.got,
      all.accounts.stopped (omega (arith, all.limit, positive)) (all.got ∙ sym all.limit),
    )
