-- ===== src/LinkLoader/Complete.antt =====
-- A whole run of the link loader: as many links in all as there are cycles times links.
use dispatch_tester.Common.{
  ℕ, suc, ◌+◌, ◌*◌, ◌<◌, ◌^◌, ◌≡◌, refl, ap, sym, ◌∙◌, String, Bool, true, false, some, List, [],
  ◌∷◌, ◌++◌, map, length, All, Run, ok, arith,
}
use dispatch_tester.Proton
use dispatch_tester.Proton.Options.{Letter, Scanf, IsScanf, IfSome, IfSome-of, parse-keeps}
use dispatch_tester.Proton.Links.{handle_batch}
use dispatch_tester.Proton.Program.{Round, quiet, start, event_loop, event_loop-batch}
use dispatch_tester.LinkLoader.{
  Loader, FlowReads, Event, connection_init, proactor_interrupt, on_init, event_handler, batch,
}
use dispatch_tester.LinkLoader.Batches.{
  IsGrant, opened, closed, messages, open_links-opens, open_links-others,
}
use dispatch_tester.LinkLoader.Cycle.{cycle, cycle_repeats, cycle_stops}
use dispatch_tester.LinkLoader.Main.{option, options, defaults, connect, signal_handler, main}

abbrev pub cycles : ℕ → List (List FlowReads) → List (Round Event)
cycles n = map (λ rs. quiet (cycle rs n))

-- Each link of each cycle gets its credit.
abbrev pub IsServed : ℕ → List FlowReads → Type 0
IsServed n rs = All (IsGrant n) rs × (length rs ≡ n)

loop : List (Round Event) → Loader → Run (Bool × Loader)
loop = event_loop (signal_handler true) event_handler

loop-cycle :
    (rs : List FlowReads) (rounds : List (Round Event)) (n : ℕ) (s t : Loader)
    → s.link_limit ≡ n
    → batch (cycle rs s.link_limit) s ≡ ok (false, t)
    → loop (quiet (cycle rs n) ∷ rounds) s ≡ loop rounds t
unfolding loop batch
loop-cycle rs rounds n s t limit run =
    ap (λ m. loop (quiet (cycle rs m) ∷ rounds) s) (sym limit)
    ∙ event_loop-batch (signal_handler true) event_handler (cycle rs s.link_limit) rounds s t run

cycles_stop :
    (rs : List FlowReads) (rss : List (List FlowReads)) (rounds : List (Round Event)) (n : ℕ)
    (s : Loader)
    → s.link_limit ≡ n
    → All (IsServed n) (rs ∷ rss)
    → n < 2 ^ 32
    → 0 < n
    → s.link_count ≡ 0
    → s.repeat_count ≡ length (rs ∷ rss)
    → (t : Loader) × (loop (cycles n (rs ∷ rss) ++ rounds) s ≡ loop rounds t)
      × (t.repeat_count ≡ 0)
      × (t.stop ≡ true)
      × (opened t ≡ length rss * n + opened s)
      × (closed t ≡ length (rs ∷ rss) * n + closed s)
      × (messages t ≡ length (rs ∷ rss) * n + messages s)
cycles_stop rs [] rounds n s limit g w l idle e =
    let (t, run, none_left, stopped, same, all_closed, sent) =
      cycle_stops rs s (rw limit g.0.0) (rw limit w) (g.0.1 ∙ sym limit) (rw limit l) idle e in
    (
      t,
      loop-cycle rs rounds n s t limit run,
      none_left,
      stopped,
      (omega (arith, same)),
      (omega (arith, all_closed, limit)),
      (omega (arith, sent, limit)),
    )
cycles_stop rs (rs' ∷ rss) rounds n s limit g w l idle e =
    let (u, run, idle', same, left, _, more, one_closed, one_sent) =
      cycle_repeats rs s (rw limit g.0.0) (rw limit w) (g.0.1 ∙ sym limit) (rw limit l) idle
        (omega (arith, e)) in
    let (t, rest, none_left, stopped, total, all_closed, sent) =
      cycles_stop rs' rss rounds n u (same ∙ limit) g.1 w l idle' (omega (arith, left, e)) in
    (
      t,
      loop-cycle rs (cycles n (rs' ∷ rss) ++ rounds) n s u limit run ∙ rest,
      none_left,
      stopped,
      (ground (arith, total, limit, more)),
      (omega (arith, all_closed, limit, one_closed)),
      (omega (arith, sent, limit, one_sent)),
    )

-- The configuration is one that the usage allows, and nothing has been done.
record IsFresh (s : Loader) : Type 0 where
  word : s.link_limit < 2 ^ 32
  some_links : 0 < s.link_limit
  some_cycles : 0 < s.repeat_count
  idle : s.link_count ≡ 0
  running : s.stop ≡ false
  no_calls : s.calls ≡ []

option-IsFresh :
    (scanf : Scanf) (c : Letter) (arg : String) (s : Loader)
    → IsScanf scanf
    → IsFresh s
    → IfSome IsFresh (option scanf c arg s)
unfolding option
option-IsFresh scanf c arg s law v = (ground (arith, law.u32_word arg))

options-IsFresh :
    (scanf : Scanf) (args : List (Letter × String)) (s : Loader)
    → IsScanf scanf
    → options scanf args defaults ≡ some s
    → IsFresh s
unfolding options
options-IsFresh scanf args s law e =
    IfSome-of IsFresh (options scanf args defaults) s
      (parse-keeps IsFresh (option scanf) (λ c arg t. option-IsFresh scanf c arg t law) args
        defaults ground arith)
      e

-- PN_CONNECTION_INIT opens the links of the first cycle.
init_opens :
    (s : Loader)
    → IsFresh s
    → (opened (on_init (connect s)) ≡ s.link_limit)
      × (closed (on_init (connect s)) ≡ 0)
      × (messages (on_init (connect s)) ≡ 0)
unfolding on_init connect
init_opens s v =
    (ground (
      arith,
      v.no_calls,
      open_links-others s.link_limit s.target_address
          (Proton.session_open ∷ Proton.connection_open ∷ (connect s).calls),
      open_links-opens s.link_limit s.target_address
          (Proton.session_open ∷ Proton.connection_open ∷ (connect s).calls),
    ))

loop-interrupt :
    (s : Loader) → s.stop ≡ true → loop (quiet (proactor_interrupt ∷ []) ∷ []) s ≡ ok (true, s)
unfolding loop event_loop handle_batch event_handler
loop-interrupt s stopped = ground arith

all_cycles :
    (k limit first links cycles : ℕ)
    → links ≡ k * limit + first
    → first ≡ limit
    → suc k ≡ cycles
    → links ≡ cycles * limit
all_cycles k limit first links cycles e f g = (rw (sym g) (omega (arith, e, f)))

all_of :
    (k cycles limit m first : ℕ)
    → m ≡ k * limit + first
    → k ≡ cycles
    → first ≡ 0
    → m ≡ cycles * limit
all_of k cycles limit m first e f z = (rw (sym f) (omega (arith, e, z)))

-- With conversions that fit their types and options that are taken, a run of `main` of the link
-- loader, in which each cycle gives credit to as many links as there are, all of them locally
-- active, takes their fragments, has each link closed by both ends after that, and which has as
-- many cycles as configured before the interrupt, leaves the event loop with no cycle left, and
-- has opened exactly as many links, started as many messages and closed as many links as there are
-- cycles times links.
pub link_loader_completes :
    (scanf : Scanf) (args : List (Letter × String)) (s : Loader) (rs : List FlowReads)
    (rss : List (List FlowReads))
    → IsScanf scanf
    → options scanf args defaults ≡ some s
    → length (rs ∷ rss) ≡ s.repeat_count
    → All (IsServed s.link_limit) (rs ∷ rss)
    → let rounds =
        quiet (connection_init ∷ [])
        ∷ (cycles s.link_limit (rs ∷ rss) ++ quiet (proactor_interrupt ∷ []) ∷ []) in
      (t : Loader) × (main scanf args rounds ≡ ok (true, t))
      × (t.repeat_count ≡ 0)
      × (opened t ≡ s.repeat_count * s.link_limit)
      × (messages t ≡ s.repeat_count * s.link_limit)
      × (closed t ≡ s.repeat_count * s.link_limit)
unfolding main loop event_loop handle_batch event_handler on_init connect
link_loader_completes scanf args s rs rss law e n g =
    let v = options-IsFresh scanf args s law e in
    let init : Loader = on_init (connect s) in
    let (t, run, none_left, stopped, total, all_closed, sent) =
      cycles_stop rs rss (quiet (proactor_interrupt ∷ []) ∷ []) s.link_limit init refl g v.word
        v.some_links v.idle (sym n) in
    (
      t,
      (rw (e, start) (run ∙ loop-interrupt t stopped)),
      none_left,
      all_cycles (length rss) s.link_limit (opened init) (opened t) s.repeat_count total
          (init_opens s v).0 n,
      all_of (length (rs ∷ rss)) s.repeat_count s.link_limit (messages t) (messages init) sent n
          (init_opens s v).2,
      all_of (length (rs ∷ rss)) s.repeat_count s.link_limit (closed t) (closed init) all_closed n
          (init_opens s v).1,
    )
