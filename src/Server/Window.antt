-- ===== src/Server/Window.antt =====
-- The credit of a link that a peer of the server sends on.
use dispatch_tester.Common.{
  ℕ, String, zero, suc, ◌+◌, ◌/◌, ◌≤◌, ◌<◌, ◌≡◌, true, false, not, ◌&&◌, List, [], ◌∷◌, sum_of, ℤ,
  pos, negsuc, Returns, Returns-bind, Returns-pair, if◌then◌else◌, ◌==◌, leb, Bool-cases, inl, inr,
  ok, arith,
}
use dispatch_tester.Proton
use dispatch_tester.Server.{
  Server, LinkCall, Delivery, Event, receiver_remote_open, link_flow, delivery, send_one, send_loop,
  link_send, receive_loop, finish, grant, link_receive, delivery_updated, on_delivery, handle,
  handle_all,
}
use dispatch_tester.Server.Accounts.{IsReading, receive_loop-total}

-- The credit granted on a link, and the messages accepted on it.
abbrev credit_of : ℕ → LinkCall → ℕ
credit_of l c = if c.link == l then Proton.credits c.call else 0

abbrev accept_of : ℕ → LinkCall → ℕ
accept_of l c = if c.link == l then (if Proton.is_accept c.call then 1 else 0) else 0

abbrev pub granted : ℕ → Server → ℕ
granted l s = sum_of (credit_of l) s.link_calls

abbrev pub accepted : ℕ → Server → ℕ
accepted l s = sum_of (accept_of l) s.link_calls

-- More than half a window of credit is outstanding on the link, and at most a window.
pub record IsSupplied (l w : ℕ) (s : Server) : Type 0 where
  pub window : s.credit_window ≡ w
  pub some_credit : accepted l s + w / 2 < granted l s
  pub within : granted l s ≤ accepted l s + w

-- What the library documents of `pn_link_credit` on a receiving link: the credit granted so far, less
-- the messages that used it up, the one at hand too.
abbrev pub IsCredit : ℕ → Delivery → Server → Type 0
IsCredit l d s =
    d.link ≡ l → d.readable ≡ true → d.partial ≡ false → d.credit + (accepted l s + 1) ≡ granted l s

-- The link is opened once.
abbrev pub IsAnswer : ℕ → Event → Server → Type 0
IsAnswer l (receiver_remote_open k target) s = (k == l) ≡ false
IsAnswer l (delivery d) s = IsReading d.recv × IsCredit l d s
IsAnswer l _ s = Unit

abbrev pub AreAnswers : ℕ → List Event → Server → Type 0
AreAnswers l [] s = Unit
AreAnswers l (e ∷ es) s = IsAnswer l e s × Returns (AreAnswers l es) (handle e s)

send_one-IsSupplied : (l k w : ℕ) (s : Server) → IsSupplied l w s → IsSupplied l w (send_one k s)
unfolding send_one
send_one-IsSupplied l k w s v = elim (Bool-cases s.presettle) [
  | inl e ↦ rw e (ground arith)
  | inr e ↦ rw e (ground arith)
]

send_loop-IsSupplied :
    (l k n w : ℕ) (s : Server) → IsSupplied l w s → IsSupplied l w (send_loop k n s)
unfolding send_loop
send_loop-IsSupplied l k zero w s v = v
send_loop-IsSupplied l k (suc n) w s v =
    send_loop-IsSupplied l k n w (send_one k s) (send_one-IsSupplied l k w s v)

link_send-IsSupplied :
    (l k w : ℕ) (credit : ℤ) (s : Server) → IsSupplied l w s → IsSupplied l w (link_send k credit s)
unfolding link_send
link_send-IsSupplied l k w (pos n) s v = send_loop-IsSupplied l k n w s v
link_send-IsSupplied l k w (negsuc n) s v = v

-- A full message on the link, or one on another link.
finish-IsSupplied :
    (l w : ℕ) (d : Delivery) (s : Server)
    → 0 < w
    → ((d.link == l) ≡ true → d.credit + (accepted l s + 1) ≡ granted l s)
    → IsSupplied l w s
    → IsSupplied l w (grant d (finish d s))
unfolding grant finish
finish-IsSupplied l w d s positive credit v =
    elim (Bool-cases (leb d.credit (s.credit_window / 2))) [
      | inl low ↦ rw low (ground (arith, credit))
      | inr high ↦ rw high (ground (arith, credit))
    ]

delivery_updated-IsSupplied :
    (l k w : ℕ) (rs : Proton.Disposition) (s : Server)
    → IsSupplied l w s
    → IsSupplied l w (delivery_updated k rs s)
unfolding delivery_updated
delivery_updated-IsSupplied l k w rs s v = ground arith

link_receive-IsSupplied :
    (l w : ℕ) (d : Delivery) (s : Server)
    → 0 < w
    → IsReading d.recv
    → d.readable ≡ true
    → d.partial ≡ false
    → IsCredit l d s
    → IsSupplied l w s
    → Returns (IsSupplied l w) (link_receive d s)
unfolding link_receive grant finish
link_receive-IsSupplied l w d s positive r readable whole credit v = rw readable (
    Returns-bind (λ left. Unit) (IsSupplied l w) (receive_loop d.recv d.pending d.pending) _
      (receive_loop-total d.recv d.pending d.pending r (omega arith))
      (λ left h.
        rw whole (finish-IsSupplied l w d s positive (λ e. credit ground arith readable whole) v)))

on_delivery-IsSupplied :
    (l w : ℕ) (d : Delivery) (s : Server)
    → 0 < w
    → IsReading d.recv
    → IsCredit l d s
    → IsSupplied l w s
    → Returns (IsSupplied l w) (on_delivery d s)
unfolding on_delivery
on_delivery-IsSupplied l w d s positive r credit v =
    Returns-bind (IsSupplied l w) (IsSupplied l w)
      (if d.readable && not d.partial then link_receive d s else ok s) _
      (ground (arith, link_receive-IsSupplied l w d s positive r))
      (λ t h. (ground (arith, delivery_updated-IsSupplied l d.link w d.state t h)))

handle-IsSupplied :
    (l w : ℕ) (e : Event) (s : Server)
    → 0 < w
    → IsAnswer l e s
    → IsSupplied l w s
    → Returns (IsSupplied l w) (handle e s)
unfolding handle
handle-IsSupplied l w (link_flow k credit) s positive a v = link_send-IsSupplied l k w credit s v
handle-IsSupplied l w (delivery d) s positive a v =
    on_delivery-IsSupplied l w d s positive a.0 a.1 v
handle-IsSupplied l w (receiver_remote_open k target) s positive a v = ground arith
handle-IsSupplied l w _ s positive a v = ground arith

handle_all-IsSupplied :
    (l w : ℕ) (es : List Event) (s : Server)
    → 0 < w
    → AreAnswers l es s
    → IsSupplied l w s
    → Returns (IsSupplied l w) (handle_all es s)
unfolding handle_all
handle_all-IsSupplied l w [] s positive a v = v
handle_all-IsSupplied l w (e ∷ es) s positive a v =
    Returns-bind (λ t. IsSupplied l w t × AreAnswers l es t) (IsSupplied l w) (handle e s) _
      (Returns-pair (IsSupplied l w) (AreAnswers l es) (handle e s)
        (handle-IsSupplied l w e s positive a.0 v) a.1)
      (λ t h. handle_all-IsSupplied l w es t positive h.1 h.0)

-- A link on which nothing was granted or accepted, opened once by a peer that sends on it to a
-- server with a window that is not empty, always has more than half a window of credit outstanding
-- and at most a window, whatever happens on it and on the other links of the server, where reads
-- take octets or find PN_EOS and the library reports for each full message on the link the credit
-- that is left.
pub supply :
    (l : ℕ) (target : String) (es : List Event) (s : Server)
    → 0 < s.credit_window
    → granted l s ≡ 0
    → accepted l s ≡ 0
    → Returns (AreAnswers l es) (handle (receiver_remote_open l target) s)
    → Returns (IsSupplied l s.credit_window) (handle_all (receiver_remote_open l target ∷ es) s)
unfolding handle_all handle
supply l target es s positive none_granted none_accepted answers =
    handle_all-IsSupplied l s.credit_window es _ positive answers ground arith
