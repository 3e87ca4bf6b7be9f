-- ===== src/Scale/Sender/Flow.antt =====
-- What a grant of credit makes the scale sender do.
use dispatch_tester.Common.{
  ℕ, zero, suc, ◌+◌, ◌-◌, ◌*◌, ◌<◌, ◌≡◌, count_if, sum_of, if◌then◌else◌, ltb, arith,
}
use dispatch_tester.Proton
use dispatch_tester.Scale.Sender.{AppData, send_one, send_loop}

-- The messages that a grant of `credit` sends.
abbrev pub sent_for : ℕ → AppData → ℕ
sent_for credit s = if ltb credit s.count then credit else s.count

-- `k` messages have gone out between two states.
pub record Sent (k : ℕ) (s t : AppData) : Type 0 where
  pub left : t.count + k ≡ s.count
  pub deliveries : count_if Proton.is_delivery t.calls ≡ k + count_if Proton.is_delivery s.calls
  pub advances : count_if Proton.is_advance t.calls ≡ k + count_if Proton.is_advance s.calls
  pub octets : sum_of Proton.octets t.calls ≡ k * s.msg_len + sum_of Proton.octets s.calls
  pub settled :
      count_if Proton.is_settle t.calls
      ≡ (if s.presettled then (if ltb 0 t.count then k else k - 1) else 0)
        + count_if Proton.is_settle s.calls
  pub tags : t.tag ≡ s.tag + k
  pub acks : t.acked ≡ s.acked

send_one-Sent : (s : AppData) → 0 < s.count → Sent 1 s (send_one s)
unfolding send_one
send_one-Sent s h = ground arith

send_one-kept :
    (s : AppData) → ((send_one s).presettled ≡ s.presettled) × ((send_one s).msg_len ≡ s.msg_len)
unfolding send_one
send_one-kept s = ground arith

Sent-suc : (k : ℕ) (s t : AppData) → 0 < s.count → Sent k (send_one s) t → Sent (suc k) s t
Sent-suc k s t h v = (ground (arith, send_one-Sent s h, send_one-kept s))

-- On a flow the scale sender sends the smaller of the credit and the messages left: each with its
-- delivery, tag, octets and advance, and where it is presettled each is settled, except the last
-- of all.
pub send_loop-Sent : (credit : ℕ) (s : AppData) → Sent (sent_for credit s) s (send_loop credit s)
unfolding send_loop
send_loop-Sent zero s = ground arith
send_loop-Sent (suc credit) s =
    (ground (
      arith,
      send_loop-Sent credit (send_one s),
      send_one-Sent s,
      Sent-suc (sent_for credit (send_one s)) s (send_loop credit (send_one s)),
    ))
