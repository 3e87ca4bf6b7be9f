-- ===== src/Tcp/Spout.antt =====
-- skupper-router/clients/spout-client.c: `run_sender`, the options, and the socket. A text is the list of its octets.
use dispatch_tester.Common.{
  ℕ, zero, suc, ◌+◌, ◌-◌, ◌*◌, Bool, true, false, if◌then◌else◌, ltb, ◌==◌, Option, none, some,
  List, [], ◌∷◌, u64, ℤ, pos, negsuc,
}
use dispatch_tester.Proton.Clock.{Reading, time, errno}
use dispatch_tester.Proton.Options.{Letter, opt_c, opt_p, opt_upper_h, parse}
use dispatch_tester.Tcp.{
  Outcome, finished, failed, blocked, SocketCall, shutdown_rd, close, shut_first, buffer_size,
  elapsed_msecs, Report, report,
}

-- `(remaining > BUFFER_SIZE) ? BUFFER_SIZE : remaining`.
abbrev pub request : ℕ → ℕ
request remaining = if ltb buffer_size remaining then buffer_size else remaining

abbrev pub piece : ℕ → Outcome (List ℕ) → Outcome (List ℕ)
piece n (finished ns) = finished (n ∷ ns)
piece n failed = failed
piece n blocked = blocked

-- `while (remaining > 0)`: the octets that each call of `send` took. `send k n` is what the call of
-- number `k` answers for `n` octets, which is no more than `n`. It may answer zero without end, hence
-- the fuel: the loop blocks when it has run out.
unfoldable pub send_loop : (ℕ → ℕ → ℤ) → ℕ → ℕ → ℕ → Outcome (List ℕ)
send_loop send fuel k zero = finished []
send_loop send zero k (suc remaining) = blocked
send_loop send (suc fuel) k (suc remaining) = elim (send k (request (suc remaining))) [
  | pos n ↦ piece n (send_loop send fuel (k + 1) (suc remaining - n))
  | negsuc n ↦ failed
]

abbrev close_report : ℕ → Reading → Reading → Outcome (List ℕ) → Outcome Report
close_report amount (time start) (time end) (finished ns) =
    finished (report amount (elapsed_msecs start end))
close_report amount _ _ blocked = blocked
close_report amount _ _ _ = failed

-- `run_sender`: the calls that end the socket, and the report. A failed clock ends it at once.
unfoldable pub run_sender :
    (ℕ → ℕ → ℤ) → Reading → Reading → ℕ → Bool → List SocketCall × Outcome Report
run_sender send (errno n) end amount half_close = (shut_first half_close shutdown_rd, failed)
run_sender send (time start) end amount half_close = (
  shut_first half_close shutdown_rd,
  close_report amount (time start) end (send_loop send amount 0 amount),
)

-- `if (sock > 0) close(sock)`, where the process gets there.
abbrev pub close_socket : ℕ → List SocketCall × Outcome Report → List SocketCall × Outcome Report
close_socket sock (calls, blocked) = (calls, blocked)
close_socket zero (calls, o) = (calls, o)
close_socket (suc sock) (calls, o) = (close ∷ calls, o)

-- `main` after the options: the answer of `socket`, and whether `connect` fails.
unfoldable pub connect_and_send :
    (ℕ → ℕ → ℤ) → ℤ → Bool → Reading → Reading → ℕ → Bool → List SocketCall × Outcome Report
connect_and_send send (negsuc n) err start end amount half_close = ([], failed)
connect_and_send send (pos sock) true start end amount half_close = close_socket sock ([], failed)
connect_and_send send (pos sock) false start end amount half_close =
    close_socket sock (run_sender send start end amount half_close)

-- The locals of `main`.
pub record Spout : Type 0 where
  pub port : ℕ
  pub amount : ℕ
  pub half_close : Bool

-- `strpbrk(optarg, "KMG")`: the scale, and the text in front of its letter.
unfoldable pub split_scale : List ℕ → ℕ × List ℕ
split_scale [] = (1, [])
split_scale (c ∷ text) =
    let (scale, front) = split_scale text in
    if c == b'K'
    then (1024, [])
    else if c == b'M'
    then (1048576, [])
    else if c == b'G'
    then (1073741824, [])
    else (scale, c ∷ front)

abbrev scaled : Spout → ℕ → Option ℕ → Option Spout
scaled s scale none = none
scaled s scale (some n) = some (record s { amount = u64 (n * scale) })

abbrev set_port : Spout → Option ℕ → Option Spout
set_port s none = none
set_port s (some n) = some (record s { port = n })

-- The conversions of `sscanf` are the C library's.
module _ (scan_u32 scan_u64 : List ℕ → Option ℕ) where
  -- One option of the command line; `none` is `usage`.
  unfoldable pub option : Letter → List ℕ → Spout → Option Spout
  unfolding split_scale
  option opt_p arg s = set_port s (scan_u32 arg)
  option opt_c arg s = let (scale, front) = split_scale arg in scaled s scale (scan_u64 front)
  option opt_upper_h arg s = some (record s { half_close = true })
  option _ arg s = none

  unfoldable pub options : List (Letter × List ℕ) → Spout → Option Spout
  unfolding option
  options = parse option

  -- `main` with its defaults: `none` is `usage`. The answers of `socket`, `connect`, the clock and
  -- `send` are the system's.
  unfoldable pub main :
      (ℕ → ℕ → ℤ)
      → List (Letter × List ℕ)
      → ℤ
      → Bool
      → Reading
      → Reading
      → Option (List SocketCall × Outcome Report)
  main send args sock err start end =
      elim (options args (record { port = 9999; amount = 1073741824; half_close = false })) [
        | none ↦ none
        | some s ↦ some (connect_and_send send sock err start end s.amount s.half_close)
      ]
