-- ===== src/Tcp/Drain.antt =====
-- skupper-router/clients/drain-server.c: the thread of one connection, the sockets, and the options.
use dispatch_tester.Common.{
  ℕ, zero, suc, ◌+◌, Bool, true, false, ◌||◌, ◌&&◌, if◌then◌else◌, ltb, Option, none, some, List,
  [], ◌∷◌, u64, ℤ, pos, negsuc,
}
use dispatch_tester.Proton.Clock.{Timespec, Reading, time, errno}
use dispatch_tester.Proton.Options.{Letter, opt_p, opt_upper_h, parse}
use dispatch_tester.Tcp.{
  Outcome, finished, failed, blocked, SocketCall, shutdown_wr, close, shut_first, elapsed_msecs,
  Report, report,
}

-- `do … while (received > 0)` over the answers of `recv`: zero is the end of the stream, a negative
-- answer an error. Without an answer the thread waits.
unfoldable pub recv_loop : List ℤ → ℕ → Outcome ℕ
recv_loop [] rx_octets = blocked
recv_loop (pos zero ∷ answers) rx_octets = finished rx_octets
recv_loop (pos (suc n) ∷ answers) rx_octets = recv_loop answers (u64 (rx_octets + suc n))
recv_loop (negsuc n ∷ answers) rx_octets = failed

-- What follows the loop: a report, if the clock can be read.
abbrev after_loop : Timespec → Reading → Outcome ℕ → Outcome Report
after_loop start (time end) (finished n) = finished (report n (elapsed_msecs start end))
after_loop start (errno n) (finished m) = failed
after_loop start end failed = failed
after_loop start end blocked = blocked

-- `thread_context_t`.
pub record Context : Type 0 where
  pub socket : ℕ
  pub half_close : Bool

-- The socket is closed once the loop has ended.
abbrev pub close_after :
    List SocketCall → Timespec → Reading → Outcome ℕ → List SocketCall × Outcome Report
close_after calls start end blocked = (calls, blocked)
close_after calls start end received = (close ∷ calls, after_loop start end received)

-- `run`: whether `setsockopt` fails, the clock, the answers of `recv`. A thread that returns before the
-- loop leaves its socket open.
unfoldable pub run : Context → Bool → Reading → List ℤ → Reading → List SocketCall × Outcome Report
run context true start answers end = ([], failed)
run context false (errno n) answers end = (shut_first context.half_close shutdown_wr, failed)
run context false (time start) answers end =
    close_after (shut_first context.half_close shutdown_wr) start end (recv_loop answers 0)

-- `while (1)` over the answers of `accept`: a thread for each connection, up to the first error. The
-- Boolean says whether there was one; without an answer `main` waits.
unfoldable pub accept_loop : Bool → List ℤ → List Context × Bool
accept_loop half_close [] = ([], false)
accept_loop half_close (pos n ∷ answers) =
    let (threads, ended) = accept_loop half_close answers in
    (record { socket = n; half_close = half_close } ∷ threads, ended)
accept_loop half_close (negsuc n ∷ answers) = ([], true)

-- `main` after the options: the answer of `socket`, whether each of the calls that set it up fails, and
-- the answers of `accept`. The result is the threads, and whether the socket is shut down.
unfoldable pub serve : ℤ → Bool → Bool → Bool → Bool → List ℤ → List Context × Bool
serve (negsuc n) opt_err bind_err listen_err half_close answers = ([], false)
serve (pos sock) opt_err bind_err listen_err half_close answers =
    let (threads, ended) = accept_loop half_close answers in
    if opt_err || bind_err || listen_err then ([], ltb 0 sock) else (threads, ended && ltb 0 sock)

-- The locals of `main`.
pub record Drain : Type 0 where
  pub port : ℕ
  pub half_close : Bool

abbrev set_port : Drain → Option ℕ → Option Drain
set_port s none = none
set_port s (some n) = some (record s { port = n })

module _ (scan_u32 : List ℕ → Option ℕ) where
  -- One option of the command line; `none` is `usage`.
  unfoldable pub option : Letter → List ℕ → Drain → Option Drain
  option opt_p arg s = set_port s (scan_u32 arg)
  option opt_upper_h arg s = some (record s { half_close = true })
  option _ arg s = none

  unfoldable pub options : List (Letter × List ℕ) → Drain → Option Drain
  unfolding option
  options = parse option

  -- `main` with its defaults: `none` is `usage`. The answers of `socket`, of the calls that set it up
  -- and of `accept` are the system's.
  unfoldable pub main :
      List (Letter × List ℕ) → ℤ → Bool → Bool → Bool → List ℤ → Option (List Context × Bool)
  main args sock opt_err bind_err listen_err answers =
      elim (options args (record { port = 9999; half_close = false })) [
        | none ↦ none
        | some s ↦ some (serve sock opt_err bind_err listen_err s.half_close answers)
      ]
