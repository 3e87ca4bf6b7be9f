-- ===== src/SessionLoader/Complete.antt =====
-- A whole run of the session loader: every session is opened, filled with messages, closed and counted.
use dispatch_tester.Common.{
  ℕ, ◌+◌, ◌*◌, ◌<◌, ◌^◌, ◌≡◌, refl, sym, ◌∙◌, String, Bool, true, false, some, List, [], ◌∷◌, ◌++◌,
  map, length, All, Run, ok, arith,
}
use dispatch_tester.Proton.Options.{Letter, Scanf, IsScanf, IfSome-of, parse-keeps}
use dispatch_tester.Proton.Links.{handle_batch}
use dispatch_tester.Proton.Program.{Round, quiet, start, event_loop, event_loop-batch}
use dispatch_tester.SessionLoader.{
  Loader, FlowReads, Event, connection_init, proactor_interrupt, event_handler, batch,
}
use dispatch_tester.SessionLoader.Session.{
  IsGrant, links_opened, messages, sessions_opened, sessions_closed, session, session_repeats,
  session_stops,
}
use dispatch_tester.SessionLoader.Progress.{IsFresh, option-IsFresh, opened}
use dispatch_tester.SessionLoader.Main.{option, options, defaults, connect, signal_handler, main}

abbrev pub sessions : List (List FlowReads) → List (Round Event)
sessions = map (λ rs. quiet (session rs))

-- Each link of each session gets its credit.
abbrev pub IsServed : ℕ → List FlowReads → Type 0
IsServed n rs = All IsGrant rs × (length rs ≡ n)

-- What `k` sessions of `n` links add, of which all were closed.
pub record Grown (k n : ℕ) (s t : Loader) : Type 0 where
  pub counted : t.session_count ≡ k + s.session_count
  pub closed : sessions_closed t ≡ k + sessions_closed s
  pub links : links_opened t ≡ k * n + links_opened s
  pub sent : messages t ≡ k * n + messages s

loop : List (Round Event) → Loader → Run (Bool × Loader)
loop = event_loop (signal_handler true) event_handler

loop-session :
    (rs : List FlowReads) (rounds : List (Round Event)) (s t : Loader)
    → batch (session rs) s ≡ ok (false, t)
    → loop (quiet (session rs) ∷ rounds) s ≡ loop rounds t
unfolding loop batch
loop-session rs rounds s t run =
    event_loop-batch (signal_handler true) event_handler (session rs) rounds s t run

sessions_stop :
    (rs : List FlowReads) (rss : List (List FlowReads)) (rounds : List (Round Event)) (n : ℕ)
    (s : Loader)
    → s.link_limit ≡ n
    → All (IsServed n) (rs ∷ rss)
    → n < 2 ^ 32
    → 0 < n
    → s.session_limit < 2 ^ 32
    → s.link_count ≡ 0
    → length (rs ∷ rss) + s.session_count ≡ s.session_limit
    → (t : Loader) × (loop (sessions (rs ∷ rss) ++ rounds) s ≡ loop rounds t)
      × (t.stop ≡ true)
      × Grown (length (rs ∷ rss)) n s t
      × (sessions_opened t ≡ length rss + sessions_opened s)
sessions_stop rs [] rounds n s limit g w l sw idle e =
    let (t, run, v, stopped, same) =
      session_stops rs s g.0.0 (rw limit w) sw (g.0.1 ∙ sym limit) (rw limit l) idle
        (omega (arith, e)) in
    (t, loop-session rs rounds s t run, stopped, (ground (arith, limit)), (omega (arith, same)))
sessions_stop rs (rs' ∷ rss) rounds n s limit g w l sw idle e =
    let (u, run, v, idle', more) =
      session_repeats rs s g.0.0 (rw limit w) sw (g.0.1 ∙ sym limit) (rw limit l) idle
        (omega (arith, e)) in
    let (t, rest, stopped, grown, opens) =
      sessions_stop rs' rss rounds n u (v.limit ∙ limit) g.1 w l
        (omega (arith, v.session_limit, sw)) idle'
        (omega (arith, v.session_limit, v.session_count, e)) in
    (
      t,
      loop-session rs (sessions (rs' ∷ rss) ++ rounds) s u run ∙ rest,
      stopped,
      (ground (arith, limit)),
      (omega (arith, opens, more)),
    )

loop-interrupt :
    (s : Loader) → s.stop ≡ true → loop (quiet (proactor_interrupt ∷ []) ∷ []) s ≡ ok (true, s)
unfolding loop event_loop handle_batch event_handler
loop-interrupt s stopped = ground arith

options-IsFresh :
    (scanf : Scanf) (args : List (Letter × String)) (s : Loader)
    → IsScanf scanf
    → options scanf args defaults ≡ some s
    → IsFresh s
unfolding options
options-IsFresh scanf args s law e =
    IfSome-of IsFresh (options scanf args defaults) s
      (parse-keeps IsFresh (option scanf) (λ c arg t. option-IsFresh scanf c arg t law) args
        defaults ground arith)
      e

-- Nothing has been counted, opened or sent.
record IsIdle (s : Loader) : Type 0 where
  uncounted : s.session_count ≡ 0
  none_closed : sessions_closed s ≡ 0
  no_links : links_opened s ≡ 0
  none_sent : messages s ≡ 0

opened-IsIdle : (s : Loader) → IsFresh s → IsIdle (opened (connect s))
unfolding connect
opened-IsIdle s v = (ground (arith, v.no_calls))

Grown-totals :
    (k n m : ℕ) (s t : Loader)
    → IsIdle s
    → Grown k n s t
    → k ≡ m
    → (t.session_count ≡ m)
      × (sessions_closed t ≡ m)
      × (links_opened t ≡ m * n)
      × (messages t ≡ m * n)
Grown-totals k n m s t v grown e = (rw (sym e) (ground arith))

-- With conversions that fit their types and options that are taken, a run of `main` of the session
-- loader, in which each session is opened by both ends, gives credit to as many links as there
-- are, takes their fragments and is closed by both ends, and which has as many sessions as
-- configured before the interrupt, leaves the event loop with all sessions counted; it has opened
-- and closed exactly that many sessions, opened exactly as many links as there are sessions times
-- links, and sent as many messages.
pub session_loader_completes :
    (scanf : Scanf) (args : List (Letter × String)) (s : Loader) (rs : List FlowReads)
    (rss : List (List FlowReads))
    → IsScanf scanf
    → options scanf args defaults ≡ some s
    → length (rs ∷ rss) ≡ s.session_limit
    → All (IsServed s.link_limit) (rs ∷ rss)
    → let rounds =
        quiet (connection_init ∷ [])
        ∷ (sessions (rs ∷ rss) ++ quiet (proactor_interrupt ∷ []) ∷ []) in
      (t : Loader) × (main scanf args rounds ≡ ok (true, t))
      × (t.session_count ≡ s.session_limit)
      × (sessions_opened t ≡ s.session_limit)
      × (sessions_closed t ≡ s.session_limit)
      × (links_opened t ≡ s.session_limit * s.link_limit)
      × (messages t ≡ s.session_limit * s.link_limit)
unfolding main loop event_loop handle_batch event_handler connect
session_loader_completes scanf args s rs rss law e n g =
    let v = options-IsFresh scanf args s law e in
    let (t, run, stopped, grown, opens) =
      sessions_stop rs rss (quiet (proactor_interrupt ∷ []) ∷ []) s.link_limit (opened (connect s))
        refl g v.link_word v.some_links v.session_word v.no_links
        (omega (arith, n, v.no_sessions)) in
    let totals =
      Grown-totals (length (rs ∷ rss)) s.link_limit s.session_limit (opened (connect s)) t
        (opened-IsIdle s v) grown n in
    (
      t,
      (rw (e, start) (run ∙ loop-interrupt t stopped)),
      totals.0,
      (ground (arith, opens, n, v.no_calls)),
      totals.1,
      totals.2,
      totals.3,
    )
