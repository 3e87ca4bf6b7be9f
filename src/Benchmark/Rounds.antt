-- ===== src/Benchmark/Rounds.antt =====
-- What holds of the two benchmark clients between two rounds, and how a round changes it.
use dispatch_tester.Common.{ℕ, ◌+◌, ◌-◌, ◌≤◌, ◌<◌, ◌≡◌, ◌∙◌, ◌==◌, count_if, arith}
use dispatch_tester.Proton
use dispatch_tester.Sender.{Sender, AckReads}
use dispatch_tester.Receiver.{Receiver, Delivery}
use dispatch_tester.Receiver.Window.{Inv, granted}
use dispatch_tester.Benchmark.Sending.{IsPlain, Sent, IsPlain-Sent, accept, accept-Acked}
use dispatch_tester.Benchmark.Receiving.{IsWhole, IsLive, deliver, deliver-Got}

abbrev pub outstanding : Receiver → ℕ
outstanding r = granted r - r.count

-- Between two rounds `k` of `n` messages have been through.
pub record Joint (n k : ℕ) (s : Sender) (r : Receiver) : Type 0 where
  pub plain : IsPlain n s
  pub sent : s.count ≡ k
  pub deliveries : count_if Proton.is_delivery s.calls ≡ k
  pub writes : count_if Proton.is_send s.calls ≡ k
  pub advances : count_if Proton.is_advance s.calls ≡ k
  pub acked : s.acked ≡ k
  pub accepted : s.accepted ≡ k
  pub none_failed : s.not_accepted ≡ 0
  pub stop : s.stop ≡ (k == n)
  pub got : r.count ≡ k
  pub limit : r.limit ≡ n
  pub live : IsLive r
  pub accounts : Inv r

-- `m` messages are sent, come in and are acknowledged.
pub Joint-step :
    (d : ℕ → Delivery) (now : ℕ → AckReads) (n k m : ℕ) (s t : Sender) (r : Receiver)
    → ((i : ℕ) → IsWhole (d i))
    → Joint n k s r
    → Sent m s t
    → 0 < m
    → k + m ≤ n
    → m ≤ outstanding r
    → Joint n (k + m) (accept now m t) (deliver d m r)
Joint-step d now n k m s t r f v sent positive room credit =
    let plain : IsPlain n t = IsPlain-Sent n m s t sent v.plain in
    let ack =
      accept-Acked now m t (omega (arith, sent.acked, v.acked, plain.limit))
        (omega (arith, plain.limit, plain.word))
        (omega (arith, sent.accepted, sent.acked, v.accepted, v.acked)) in
    let got =
      deliver-Got d m r f v.accounts v.live (omega (arith, v.got, v.limit))
        (omega (arith, positive)) in
    record {
      plain = record {
        word = plain.word;
        limit = ack.limit ∙ plain.limit;
        no_stamps = ack.stamps ∙ plain.no_stamps;
        unsettled = ack.presettle ∙ plain.unsettled;
      };
      sent = omega (arith, ack.count, sent.count, v.sent);
      deliveries = omega (arith, ack.deliveries, sent.deliveries, v.deliveries);
      writes = omega (arith, ack.writes, sent.writes, v.writes);
      advances = omega (arith, ack.advances, sent.advances, v.advances);
      acked = omega (arith, ack.acked, sent.acked, v.acked);
      accepted = omega (arith, ack.accepted, sent.accepted, v.accepted);
      none_failed = omega (arith, ack.not_accepted, sent.not_accepted, v.none_failed);
      stop = (ground (arith, ack, plain.limit, sent.stop, sent.acked, v.stop, v.acked));
      got = omega (arith, got.count, v.got);
      limit = got.limit ∙ v.limit;
      live = got.live;
      accounts = got.accounts;
    }

pub Joint-at : (n k m : ℕ) (s : Sender) (r : Receiver) → k ≡ m → Joint n k s r → Joint n m s r
Joint-at n k m s r e v = (rw e at v)
