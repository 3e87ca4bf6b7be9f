-- ===== src/Benchmark/Sending.antt =====
-- The sender's half of a round: what a grant of credit sends, and what the acknowledgements do.
use dispatch_tester.Common.{
  ℕ, zero, suc, ◌+◌, ◌-◌, ◌≤◌, ◌<◌, ◌^◌, ◌≡◌, refl, ◌∙◌, true, false, Bool-cases, inl, inr, ok, ltb,
  ◌==◌, if◌then◌else◌, ◌&&◌, count_if, arith,
}
use dispatch_tester.Proton
use dispatch_tester.Proton.Message.{Message, Encoded}
use dispatch_tester.Sender.{
  Sender, FlowReads, AckReads, encode_if, next_delivery, write_out, send_one, send_loop, link_flow,
  count_stall, count_difference, end_stall, before_sending, after_sending, on_flow, tally,
  on_delivery, event_handler,
}

-- The sender of a benchmark that sends no time stamps and waits for its acknowledgements.
pub record IsPlain (n : ℕ) (s : Sender) : Type 0 where
  pub word : n < 2 ^ 64
  pub limit : s.limit ≡ n
  pub no_stamps : s.add_timestamp ≡ false
  pub unsettled : s.presettle ≡ false

-- What changes when `m` messages are sent.
pub record Sent (m : ℕ) (s t : Sender) : Type 0 where
  pub count : t.count ≡ s.count + m
  pub deliveries : count_if Proton.is_delivery t.calls ≡ count_if Proton.is_delivery s.calls + m
  pub writes : count_if Proton.is_send t.calls ≡ count_if Proton.is_send s.calls + m
  pub advances : count_if Proton.is_advance t.calls ≡ count_if Proton.is_advance s.calls + m
  pub limit : t.limit ≡ s.limit
  pub acked : t.acked ≡ s.acked
  pub accepted : t.accepted ≡ s.accepted
  pub not_accepted : t.not_accepted ≡ s.not_accepted
  pub stop : t.stop ≡ s.stop
  pub stamps : t.add_timestamp ≡ s.add_timestamp
  pub presettle : t.presettle ≡ s.presettle

Sent-trans : (m k : ℕ) (s t u : Sender) → Sent m s t → Sent k t u → Sent (m + k) s u
Sent-trans m k s t u a b = record {
  count = omega (arith, a.count, b.count);
  deliveries = omega (arith, a.deliveries, b.deliveries);
  writes = omega (arith, a.writes, b.writes);
  advances = omega (arith, a.advances, b.advances);
  limit = b.limit ∙ a.limit;
  acked = b.acked ∙ a.acked;
  accepted = b.accepted ∙ a.accepted;
  not_accepted = b.not_accepted ∙ a.not_accepted;
  stop = b.stop ∙ a.stop;
  stamps = b.stamps ∙ a.stamps;
  presettle = b.presettle ∙ a.presettle;
}

Sent-at : (m k : ℕ) (s t : Sender) → m ≡ k → Sent m s t → Sent k s t
Sent-at m k s t e v = (rw e at v)

pub IsPlain-Sent : (n m : ℕ) (s t : Sender) → Sent m s t → IsPlain n s → IsPlain n t
IsPlain-Sent n m s t e v = record {
  word = v.word;
  limit = e.limit ∙ v.limit;
  no_stamps = e.stamps ∙ v.no_stamps;
  unsettled = e.presettle ∙ v.unsettled;
}

abbrev pub min_of : ℕ → ℕ → ℕ
min_of a b = if ltb a b then a else b

abbrev round : Sender → Sender
round s = write_out (next_delivery s)

round-Sent : (s : Sender) → s.count + 1 < 2 ^ 64 → s.presettle ≡ false → Sent 1 s (round s)
unfolding write_out next_delivery
round-Sent s w p = ground arith

before_sending-Sent : (reads : FlowReads) (s : Sender) → Sent 0 s (before_sending reads s)
unfolding before_sending end_stall count_difference count_stall
before_sending-Sent reads s = ground arith

after_sending-Sent :
    (reads : FlowReads) (left : ℕ) (s : Sender) → Sent 0 s (after_sending reads left s)
unfolding after_sending
after_sending-Sent reads left s = ground arith

module _ (encode : Message → ℕ → Encoded) where
  send_loop-Sent :
      (stamp : ℕ → ℕ) (n credit : ℕ) (s : Sender)
      → IsPlain n s
      → 0 < n
      → s.count ≤ n
      → (left : ℕ) × (t : Sender) × (send_loop encode stamp credit s ≡ ok (left, t))
        × Sent (min_of credit (n - s.count)) s t
  unfolding send_loop send_one encode_if
  send_loop-Sent stamp n zero s v positive h = (0, s, refl, ground arith)
  send_loop-Sent stamp n (suc credit) s v positive h = elim (Bool-cases (ltb s.count n)) [
    | inl m ↦
        let one = round-Sent s (ground (arith, v.word)) v.unsettled in
        let (left, t, run, rest) =
          send_loop-Sent stamp n credit (round s) (IsPlain-Sent n 1 s (round s) one v) positive
            (ground (arith, one.count)) in
        (
          left,
          t,
          (ground (arith, v.no_stamps, v.limit, run)),
          (Sent-at (1 + min_of credit (n - (round s).count)) (min_of (suc credit) (n - s.count)) s t
              (ground (arith, one.count)) (Sent-trans 1 _ s (round s) t one rest)),
        )
    | inr full ↦ (
      suc credit,
      s,
      (ground (arith, v.limit)),
      (Sent-at 0 (min_of (suc credit) (n - s.count)) s s ground arith ground arith),
    )
  ]

  -- A grant of credit below the limit sends the smaller of the two.
  pub on_flow-Sent :
      (reads : FlowReads) (n : ℕ) (s : Sender)
      → IsPlain n s
      → s.count < n
      → 0 < reads.credit
      → (t : Sender) × (event_handler encode (link_flow reads) s ≡ ok t)
        × Sent (min_of reads.credit (n - s.count)) s t
  unfolding event_handler on_flow
  on_flow-Sent reads n s v less some_credit =
      let b : Sender = before_sending reads s in
      let before = before_sending-Sent reads s in
      let (left, t, run, sent) =
        send_loop-Sent reads.stamp n reads.credit b (IsPlain-Sent n 0 s b before v) (omega arith)
          (omega (arith, before.count)) in
      let m : ℕ = min_of reads.credit (n - s.count) in
      (
        after_sending reads left t,
        (ground (arith, v.limit, run)),
        Sent-at (0 + min_of reads.credit (n - b.count) + 0) m s (after_sending reads left t)
            (ground (arith, before.count))
            (Sent-trans _ 0 s t _ (Sent-trans 0 _ s b t before sent)
              (after_sending-Sent reads left t)),
      )

-- What changes when `k` messages are acknowledged.
pub record Acked (k : ℕ) (s t : Sender) : Type 0 where
  pub acked : t.acked ≡ s.acked + k
  pub accepted : t.accepted ≡ s.accepted + k
  pub not_accepted : t.not_accepted ≡ s.not_accepted
  pub count : t.count ≡ s.count
  pub deliveries : count_if Proton.is_delivery t.calls ≡ count_if Proton.is_delivery s.calls
  pub writes : count_if Proton.is_send t.calls ≡ count_if Proton.is_send s.calls
  pub advances : count_if Proton.is_advance t.calls ≡ count_if Proton.is_advance s.calls
  pub limit : t.limit ≡ s.limit
  pub stamps : t.add_timestamp ≡ s.add_timestamp
  pub presettle : t.presettle ≡ s.presettle
  pub stop : t.stop ≡ (if ltb 0 k && t.acked == t.limit then true else s.stop)

abbrev pub accepted : AckReads → Sender → Sender
accepted now s = on_delivery true Proton.accepted now s

-- `n` acknowledgements; `now` is the clock after so many.
unfoldable pub accept : (ℕ → AckReads) → ℕ → Sender → Sender
accept now zero s = s
accept now (suc n) s = accept now n (accepted (now s.acked) s)

accepted-Acked :
    (now : AckReads) (s : Sender)
    → 0 < s.limit
    → s.acked < s.limit
    → s.limit < 2 ^ 64
    → s.accepted ≡ s.acked
    → Acked 1 s (accepted now s)
unfolding on_delivery tally
accepted-Acked now s positive less word same = ground arith

pub accept-Acked :
    (now : ℕ → AckReads) (k : ℕ) (s : Sender)
    → s.acked + k ≤ s.limit
    → s.limit < 2 ^ 64
    → s.accepted ≡ s.acked
    → Acked k s (accept now k s)
unfolding accept
accept-Acked now zero s h word same = ground arith
accept-Acked now (suc k) s h word same =
    let one = accepted-Acked (now s.acked) s (omega arith) (omega arith) word same in
    let rest =
      accept-Acked now k (accepted (now s.acked) s) (omega (arith, one.acked, one.limit))
        (omega (arith, one.limit)) (omega (arith, one.acked, one.accepted)) in
    (ground (arith, one, rest))
