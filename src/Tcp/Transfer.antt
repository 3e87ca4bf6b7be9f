-- ===== src/Tcp/Transfer.antt =====
-- What the spout client sends, the drain server counts.
use dispatch_tester.Common.{
  ℕ, zero, suc, ◌+◌, ◌-◌, ◌≤◌, ◌<◌, ◌^◌, ◌≡◌, refl, List, [], ◌∷◌, ◌++◌, map, All, sum_of, ℤ, pos,
  Bool, false, u64, ap, arith,
}
use dispatch_tester.Proton.Clock.{Timespec, time}
use dispatch_tester.Tcp.{
  finished, close, shutdown_rd, shutdown_wr, shut_first, elapsed_msecs, report,
}
use dispatch_tester.Tcp.Spout.{request, piece, send_loop, connect_and_send, run_sender}
use dispatch_tester.Tcp.Drain.{Context, recv_loop, run}

abbrev pub total : List ℕ → ℕ
total = sum_of (λ n. n)

abbrev pub ArePositive : List ℕ → Type 0
ArePositive = All (λ n. 0 < n)

-- A socket that takes at least one octet of what it is given, and at most all of it.
abbrev pub IsSocket : (ℕ → ℕ → ℤ) → Type 0
IsSocket send = (k n : ℕ) → 0 < n → (m : ℕ) × (send k n ≡ pos m) × (0 < m) × (m ≤ n)

-- TCP keeps the octets and their number, and not where a piece ends.
pub record IsStream (carry : List ℕ → List ℕ) : Type 0 where
  pub positive : (ns : List ℕ) → ArePositive (carry ns)
  pub kept : (ns : List ℕ) → total (carry ns) ≡ total ns

-- What the receiver's calls answer: the pieces, and then the end of the stream.
abbrev pub answers : List ℕ → List ℤ
answers ns = map pos ns ++ pos 0 ∷ []

send_loop-total :
    (send : ℕ → ℕ → ℤ) (fuel k remaining : ℕ)
    → IsSocket send
    → remaining ≤ fuel
    → (ns : List ℕ) × (send_loop send fuel k remaining ≡ finished ns) × (total ns ≡ remaining)
unfolding send_loop
send_loop-total send fuel k zero law h = ([], ground arith, refl)
send_loop-total send zero k (suc remaining) law h = absurd (omega arith)
send_loop-total send (suc fuel) k (suc remaining) law h =
    let positive : 0 < request (suc remaining) = ground arith in
    let (m, took, some_octets, within) = law k (request (suc remaining)) positive in
    let (ns, run, sum) = send_loop-total send fuel (k + 1) (suc remaining - m) law (omega arith) in
    (m ∷ ns, (rw (took, send_loop) (ap (piece m) run)), (ground (arith, sum, within)))

recv_loop-counts :
    (ns : List ℕ) (rx_octets : ℕ)
    → ArePositive ns
    → rx_octets + total ns < 2 ^ 64
    → recv_loop (answers ns) rx_octets ≡ finished (rx_octets + total ns)
unfolding recv_loop
recv_loop-counts [] rx p h = ground arith
recv_loop-counts (zero ∷ ns) rx p h = absurd (omega (arith, p.0))
recv_loop-counts (suc n ∷ ns) rx p h = (ground (arith, recv_loop-counts ns (u64 (rx + suc n)) p.1))

-- Over a connected socket, not descriptor 0, that takes at least one octet of what it is given and
-- at most all, and a stream that keeps the number of octets and cuts them into pieces as it likes,
-- with clocks that can be read: the spout client sends an amount below 2^64 to its end, and it and
-- a thread of the drain server, whose set-up succeeds, both report exactly that amount in the time
-- that each has measured and close their sockets.
pub transfer :
    (send : ℕ → ℕ → ℤ) (carry : List ℕ → List ℕ) (amount sock : ℕ) (half_close : Bool)
    (context : Context) (start end start' end' : Timespec)
    → IsSocket send
    → IsStream carry
    → amount < 2 ^ 64
    → (ns : List ℕ) × (send_loop send amount 0 amount ≡ finished ns)
      × (connect_and_send send (pos (suc sock)) false (time start) (time end) amount half_close ≡ (
        close ∷ shut_first half_close shutdown_rd,
        finished (report amount (elapsed_msecs start end)),
      ))
      × (run context false (time start') (answers (carry ns)) (time end') ≡ (
        close ∷ shut_first context.half_close shutdown_wr,
        finished (report amount (elapsed_msecs start' end')),
      ))
unfolding connect_and_send run_sender run
transfer send carry amount sock half_close context start end start' end' law stream h =
    let (ns, sent, sum) = send_loop-total send amount 0 amount law (omega arith) in
    let kept : total (carry ns) ≡ amount = (omega (arith, stream.kept ns, sum)) in
    let counted : recv_loop (answers (carry ns)) 0 ≡ finished amount =
      (ground (arith, recv_loop-counts (carry ns) 0 (stream.positive ns), kept)) in
    (ns, sent, (rw (sent, connect_and_send, run_sender) refl), (rw (counted, run) refl))
