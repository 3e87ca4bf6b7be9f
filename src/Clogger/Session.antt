-- ===== src/Clogger/Session.antt =====
-- The event loop of the clogger: the accounts hold through every batch, and it closes once.
use dispatch_tester.Common.{
  Returns-Ends, Ends, Ends-bind, String, false, true, if◌then◌else◌, ◌<◌, ◌^◌, Returns,
  Returns-bind, ℕ, ◌≡◌, refl, Bool, List, [], ◌∷◌, ℤ, arith,
}
use dispatch_tester.Proton
use dispatch_tester.Proton.Options.{Letter, Scanf, IsScanf, IfSome, parse-keeps}
use dispatch_tester.Proton.Links.{handle_batch-Returns}
use dispatch_tester.Proton.Program.{Round, start-Ends, All-triv}
use dispatch_tester.Clogger.{Clogger, Event, event_handler}
use dispatch_tester.Clogger.Framing.{Inv, Accepts, event_handler-Inv}
use dispatch_tester.Clogger.Main.{
  batch, round, close_endpoints, rounds_loop, signal_handler, option, options, defaults, connect,
  main,
}

close_endpoints-Inv : (s : Clogger) → Inv s → Inv (close_endpoints s)
unfolding close_endpoints
close_endpoints-Inv s v = ground arith

-- Closing the endpoints of the clogger twice is closing them once.
pub close_endpoints_idem : (s : Clogger) → close_endpoints (close_endpoints s) ≡ close_endpoints s
unfolding close_endpoints
close_endpoints_idem s = refl

module _ (rc : ℕ → ℤ) (law : Accepts rc) where
  batch-Inv :
      (es : List Event) (s : Clogger)
      → Inv s
      → Returns (λ (r : Bool × Clogger). Inv r.1) (batch rc es s)
  unfolding batch
  batch-Inv es s v =
      handle_batch-Returns (λ e. Unit) Inv (event_handler rc)
        (λ e t q. event_handler-Inv rc law e t) es s (All-triv (λ e. tt) es) v

  -- With a library that takes what it is given, a round of the main loop of the clogger returns
  -- and keeps the accounts, if they held: the octets written are whole messages and the part of
  -- the one in the making, and no more is sent than the limit.
  pub round-Inv :
      (es : List Event) (s : Clogger)
      → Inv s
      → Returns (λ (r : Bool × Clogger). Inv r.1) (round rc es s)
  unfolding round
  round-Inv es s v =
      Returns-bind (λ (r : Bool × Clogger). Inv r.1) (λ (r : Bool × Clogger). Inv r.1)
        (batch rc es s) _ (batch-Inv es s v) (λ r h. (ground (arith, close_endpoints-Inv r.1 h)))

  rounds_loop-Inv :
      (rs : List (Round Event)) (s : Clogger)
      → Inv s
      → Returns (λ (r : Bool × Clogger). Inv r.1) (rounds_loop rc rs s)
  unfolding rounds_loop signal_handler
  rounds_loop-Inv [] s v = v
  rounds_loop-Inv (r ∷ rs) s v =
      Returns-bind (λ (p : Bool × Clogger). Inv p.1) (λ (p : Bool × Clogger). Inv p.1)
        (round rc r.events (if r.signal then signal_handler true Proton.sigint s else s)) _
        (round-Inv r.events _ (ground arith)) (λ p h. (ground (arith, rounds_loop-Inv rs p.1 h)))

  -- The configuration fits its words, and nothing has been sent.
  record IsFresh (s : Clogger) : Type 0 where
    word : s.body_length < 2 ^ 32
    limit_word : s.limit < 2 ^ 64
    none_sent : s.sent ≡ 0
    none_acked : s.acked ≡ 0
    none_accepted : s.accepted ≡ 0
    none_refused : s.not_accepted ≡ 0
    idle : s.pn_dlv ≡ false
    no_octets : s.bytes_sent ≡ 0
    no_calls : s.calls ≡ []

  option-IsFresh :
      (scanf : Scanf) (c : Letter) (arg : String) (s : Clogger)
      → IsScanf scanf
      → IsFresh s
      → IfSome IsFresh (option scanf c arg s)
  unfolding option
  option-IsFresh scanf c arg s words v = (ground (arith, words.u32_word arg, words.u64_word arg))

  connect-Inv : (s : Clogger) → IsFresh s → Inv (connect s)
  unfolding connect
  connect-Inv s v = (ground (arith, v.no_calls))

  -- With a library that takes what it is given and conversions that fit their types, every run of
  -- `main` of the clogger, whatever the command line, the events and the signals, ends in `usage`
  -- or returns with its accounts in order: the octets written are whole messages and the part of
  -- the one in the making, the messages counted are the links advanced, and no more is sent than
  -- the limit.
  pub clogger-Inv :
      (scanf : Scanf) (args : List (Letter × String)) (rounds : List (Round Event))
      → IsScanf scanf
      → Ends (λ (r : Bool × (ℕ × Clogger)). Inv r.1.1) (main scanf rc args rounds)
  unfolding main options
  clogger-Inv scanf args rounds words =
      start-Ends IsFresh (λ (r : Bool × (ℕ × Clogger)). Inv r.1.1) (options scanf args defaults) _
        (parse-keeps IsFresh (option scanf) (λ c arg s. option-IsFresh scanf c arg s words) args
          defaults ground arith)
        (λ s fresh.
          Ends-bind (λ (r : Bool × Clogger). Inv r.1) (λ (r : Bool × (ℕ × Clogger)). Inv r.1.1)
            (rounds_loop rc rounds (connect s)) _
            (Returns-Ends (λ (r : Bool × Clogger). Inv r.1) (rounds_loop rc rounds (connect s))
              (rounds_loop-Inv rounds (connect s) (connect-Inv s fresh)))
            (λ p h. h))
