-- ===== src/Scale/Session.antt =====
-- A scale sender and a scale receiver with a network between them that loses nothing: each round the
-- sender gets the credit of the receiver, its messages arrive, and each is accepted.
use dispatch_tester.Common.{
  ℕ, zero, suc, ◌+◌, ◌-◌, ◌≡◌, true, some, count_if, pos, ◌&&◌, if◌then◌else◌, ltb, ◌==◌,
}
use dispatch_tester.Proton
use dispatch_tester.Scale.Sender
use dispatch_tester.Scale.Sender.Flow.{sent_for}
use dispatch_tester.Scale.Receiver
use dispatch_tester.Scale.Receiver.Flow.{Inv, granted, received}

-- The next message, with what the library reports of the credit.
abbrev pub next : Receiver.Delivery → Receiver.AppData → Receiver.AppData
next d r =
    Receiver.event_handler (Receiver.delivery (record d { credit = granted r - (received r + 1) }))
      r

unfoldable pub deliver : Receiver.Delivery → ℕ → Receiver.AppData → Receiver.AppData
deliver d zero r = r
deliver d (suc n) r = deliver d n (next d r)

abbrev pub accepted : Sender.AppData → Sender.AppData
accepted s = Sender.event_handler (Sender.delivery true (some Proton.accepted)) s

unfoldable pub accept : ℕ → Sender.AppData → Sender.AppData
accept zero s = s
accept (suc n) s = accept n (accepted s)

abbrev pub outstanding : Receiver.AppData → ℕ
outstanding r = granted r - received r

-- One round.
unfoldable pub exchange :
    Receiver.Delivery → Sender.AppData × Receiver.AppData → Sender.AppData × Receiver.AppData
exchange d (s, r) = (
  accept (sent_for (outstanding r) s) (Sender.event_handler (Sender.link_flow (outstanding r)) s),
  deliver d (sent_for (outstanding r) s) r,
)

unfoldable pub exchanges :
    Receiver.Delivery → ℕ → Sender.AppData × Receiver.AppData → Sender.AppData × Receiver.AppData
exchanges d zero p = p
exchanges d (suc n) p = exchanges d n (exchange d p)

abbrev r_closes : Receiver.AppData → ℕ
r_closes r = count_if Proton.is_connection_close r.calls

abbrev s_closes : Sender.AppData → ℕ
s_closes s = count_if Proton.is_connection_close s.calls

-- `n` messages have come in between two states.
record Got (n : ℕ) (r t : Receiver.AppData) : Type 0 where
  left : t.count + n ≡ r.count
  more : received t ≡ received r + n
  window : t.credit ≡ r.credit
  closes : r_closes t ≡ (if ltb 0 n && t.count == 0 then 1 else 0) + r_closes r
  accounts : Inv t

-- `n` messages were accepted between two states, and `a` acknowledgements are left.
record Done (a n : ℕ) (s t : Sender.AppData) : Type 0 where
  left : t.acked ≡ pos a
  same : t.count ≡ s.count
  kept : count_if Proton.is_delivery t.calls ≡ count_if Proton.is_delivery s.calls
  closes : s_closes t ≡ (if ltb 0 n && a == 0 then 1 else 0) + s_closes s

-- Between two rounds `c` messages are to go and `k` have been through.
record Joint (c k w : ℕ) (s : Sender.AppData) (r : Receiver.AppData) : Type 0 where
  to_send : s.count ≡ c
  to_ack : s.acked ≡ pos c
  to_get : r.count ≡ c
  window : r.credit ≡ w
  sent : count_if Proton.is_delivery s.calls ≡ k
  got : received r ≡ k
  s_closed : s_closes s ≡ (if c == 0 then 1 else 0)
  r_closed : r_closes r ≡ (if c == 0 then 1 else 0)
  accounts : Inv r
