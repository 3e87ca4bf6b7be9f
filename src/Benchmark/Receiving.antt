-- ===== src/Benchmark/Receiving.antt =====
-- The receiver's half of a round: messages that come in whole.
use dispatch_tester.Common.{ℕ, zero, suc, ◌+◌, ◌-◌, ◌≤◌, ◌<◌, ◌^◌, ◌≡◌, ◌∙◌, true, false, arith}
use dispatch_tester.Proton.Credit.{replenish}
use dispatch_tester.Receiver.{
  Receiver, Delivery, delivery, count_message, complete, on_message, on_delivery, event_handler,
}
use dispatch_tester.Receiver.Window.{
  Inv, IsCredit, granted, measure_frame, on_delivery-Inv, on_delivery_supply,
}

-- The next message, with what the library reports of the credit.
abbrev pub reported : Delivery → Receiver → Delivery
reported d r = record d { credit = granted r - (r.count + 1) }

abbrev pub next : Delivery → Receiver → Receiver
next d r = event_handler (delivery (reported d r)) r

-- `n` messages; `d` has what is found at each, by their number.
unfoldable pub deliver : (ℕ → Delivery) → ℕ → Receiver → Receiver
deliver d zero r = r
deliver d (suc n) r = deliver d n (next (d r.count) r)

-- A delivery that can be read, with all of its message.
pub record IsWhole (d : Delivery) : Type 0 where
  pub readable : d.readable ≡ true
  pub full : d.partial ≡ false

-- Credit is outstanding as long as messages are expected.
abbrev pub IsLive : Receiver → Type 0
IsLive r = r.count < r.limit → r.count < granted r

-- What changes when `k` messages have come in.
pub record Got (k : ℕ) (r t : Receiver) : Type 0 where
  pub count : t.count ≡ r.count + k
  pub limit : t.limit ≡ r.limit
  pub window : t.credit_window ≡ r.credit_window
  pub more : granted r ≤ granted t
  pub live : IsLive t
  pub accounts : Inv t

-- A whole message below the limit is counted, and credit is only added.
on_delivery_counts :
    (d : Delivery) (r : Receiver)
    → IsWhole d
    → r.count < r.limit
    → r.count + 1 < 2 ^ 64
    → let t = on_delivery d r in
      (t.count ≡ r.count + 1)
      × (t.limit ≡ r.limit)
      × (t.credit_window ≡ r.credit_window)
      × (granted r ≤ granted t)
unfolding on_delivery on_message complete count_message replenish
on_delivery_counts d r f c w =
    (ground (arith, f.readable, f.full, measure_frame r.check_latency d (count_message d r)))

next-Got :
    (d : Delivery) (r : Receiver)
    → IsWhole d
    → Inv r
    → r.count < r.limit
    → r.count < granted r
    → Got 1 r (next d r)
unfolding event_handler
next-Got d r f v c g =
    let credit : IsCredit (reported d r) r = omega arith in
    let word : r.count + 1 < 2 ^ 64 = (omega (arith, v.limit_word)) in
    let whole : IsWhole (reported d r) = record { readable = f.readable; full = f.full } in
    let (count, limit, window, more) = on_delivery_counts (reported d r) r whole c word in
    let supply = on_delivery_supply (reported d r) r word credit v f.readable f.full in
    record {
      count = count;
      limit = limit;
      window = window;
      more = more;
      live = λ less. (omega (arith, (supply (λ h. (omega (arith, count, limit, less)))).1, count));
      accounts = on_delivery-Inv (reported d r) r word credit v;
    }

pub deliver-Got :
    (d : ℕ → Delivery) (k : ℕ) (r : Receiver)
    → ((i : ℕ) → IsWhole (d i))
    → Inv r
    → IsLive r
    → r.count + k ≤ r.limit
    → r.count + k ≤ granted r
    → Got k r (deliver d k r)
unfolding deliver
deliver-Got d zero r f v live c g = ground arith
deliver-Got d (suc k) r f v live c g =
    let one = next-Got (d r.count) r (f r.count) v (omega arith) (omega arith) in
    let rest =
      deliver-Got d k (next (d r.count) r) f one.accounts one.live
        (omega (arith, one.count, one.limit)) (omega (arith, one.count, one.more)) in
    record {
      count = omega (arith, one.count, rest.count);
      limit = rest.limit ∙ one.limit;
      window = rest.window ∙ one.window;
      more = omega (arith, one.more, rest.more);
      live = rest.live;
      accounts = rest.accounts;
    }
