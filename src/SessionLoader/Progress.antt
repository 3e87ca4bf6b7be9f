-- ===== src/SessionLoader/Progress.antt =====
-- The sessions of the session loader.
use dispatch_tester.Common.{
  All, [], halt, Ends, Ends-of, out_of_fuel, ℕ, String, zero, suc, ◌+◌, ◌*◌, ◌≤◌, ◌<◌, ◌^◌, ◌≡◌,
  ◌≢◌, refl, >>=-eq-ok, Bool, true, false, List, ◌∷◌, count_if, ok, arith,
}
use dispatch_tester.Proton
use dispatch_tester.Proton.Options.{Letter, Scanf, IsScanf, IfSome, parse-keeps}
use dispatch_tester.Proton.Program.{Round, start-Ends, event_loop, event_loop-Ends}
use dispatch_tester.Proton.Links.{handle_batch}
use dispatch_tester.SessionLoader.{
  Loader, FlowReads, fragment_size, Event, connection_init, session_opened, link_flow,
  session_closed, proactor_inactive, proactor_interrupt, unhandled, open_links, start_message,
  count_link, on_flow, on_opened, on_closed, event_handler,
}
use dispatch_tester.SessionLoader.Main.{option, options, defaults, connect, signal_handler, main}

-- The messages started, and the octets written, since the last session was opened.
abbrev pub started : List Proton.Call → ℕ
started [] = 0
started (Proton.session_open ∷ calls) = 0
started (Proton.delivery_new t ∷ calls) = suc (started calls)
started (_ ∷ calls) = started calls

abbrev pub written : List Proton.Call → ℕ
written [] = 0
written (Proton.session_open ∷ calls) = 0
written (Proton.link_send n ∷ calls) = n + written calls
written (_ ∷ calls) = written calls

-- Each session that was opened is counted when it is closed, and at most one is torn down at a time. In
-- the session at hand, each link counted had a message started and its fragment written.
pub record Inv (s : Loader) : Type 0 where
  pub link_word : s.link_limit < 2 ^ 32
  pub session_word : s.session_limit < 2 ^ 32
  pub links : s.link_count ≤ s.link_limit
  pub messages : (s.stop ≡ false) → started s.calls ≡ s.link_count
  pub octets : (s.stop ≡ false) → written s.calls ≡ fragment_size * s.link_count
  pub sessions : (s.stop ≡ false) → s.session_count < s.session_limit
  pub opened : (s.stop ≡ false) → count_if Proton.is_session_open s.calls ≡ s.session_count + 1

on_flow-Inv : (r : FlowReads) (s t : Loader) → Inv s → on_flow r s ≡ ok t → Inv t
unfolding on_flow start_message count_link
on_flow-Inv r s t v h = ground arith

open_links-messages :
    (n : ℕ) (target : String) (calls : List Proton.Call)
    → (started (open_links n target calls) ≡ started calls)
      × (written (open_links n target calls) ≡ written calls)
unfolding open_links
open_links-messages zero target calls = (refl, refl)
open_links-messages (suc n) target calls =
    open_links-messages n target
      (Proton.link_open ∷ Proton.set_target target ∷ Proton.sender_new ∷ calls)

open_links-sessions :
    (n : ℕ) (target : String) (calls : List Proton.Call)
    → count_if Proton.is_session_open (open_links n target calls)
      ≡ count_if Proton.is_session_open calls
unfolding open_links
open_links-sessions zero target calls = omega arith
open_links-sessions (suc n) target calls =
    (omega (
      arith,
      open_links-sessions n target
          (Proton.link_open ∷ Proton.set_target target ∷ Proton.sender_new ∷ calls),
    ))

on_closed-Inv : (closed : Bool) (s : Loader) → Inv s → Inv (on_closed closed s)
unfolding on_closed
on_closed-Inv closed s v = ground arith

on_opened-Inv : (active : Bool) (s : Loader) → Inv s → Inv (on_opened active s)
unfolding on_opened
on_opened-Inv active s v =
    (ground (
      arith,
      open_links-sessions s.link_limit s.target_address s.calls,
      open_links-messages s.link_limit s.target_address s.calls,
    ))

-- Every event but the first that a session loader returns from keeps its accounts.
event_handler-Inv :
    (e : Event) (s t : Loader) (done : Bool)
    → e ≢ connection_init
    → Inv s
    → event_handler e s ≡ ok (done, t)
    → Inv t
unfolding event_handler
event_handler-Inv connection_init s t done later v h = absurd (later refl)
event_handler-Inv (session_opened active) s t done later v h =
    ground (arith, on_opened-Inv active s v)
event_handler-Inv (link_flow r) s t done later v h =
    let (u, flow, same) = >>=-eq-ok (on_flow r s) (λ (u : Loader). ok (false, u)) h in
    (ground (arith, same, on_flow-Inv r s u v flow))
event_handler-Inv (session_closed closed) s t done later v h =
    ground (arith, on_closed-Inv closed s v)
event_handler-Inv proactor_inactive s t done later v h = ground arith
event_handler-Inv proactor_interrupt s t done later v h = ground arith
event_handler-Inv unhandled s t done later v h = ground arith

event_handler_fuel : (e : Event) (s : Loader) → event_handler e s ≢ halt out_of_fuel
unfolding event_handler on_flow start_message
event_handler_fuel e s h = ground arith

-- The configuration is one that the usage allows, and nothing has been done.
pub record IsFresh (s : Loader) : Type 0 where
  pub link_word : s.link_limit < 2 ^ 32
  pub session_word : s.session_limit < 2 ^ 32
  pub some_links : 0 < s.link_limit
  pub some_sessions : 0 < s.session_limit
  pub no_links : s.link_count ≡ 0
  pub no_sessions : s.session_count ≡ 0
  pub no_calls : s.calls ≡ []

pub option-IsFresh :
    (scanf : Scanf) (c : Letter) (arg : String) (s : Loader)
    → IsScanf scanf
    → IsFresh s
    → IfSome IsFresh (option scanf c arg s)
unfolding option
option-IsFresh scanf c arg s law v = (ground (arith, law.u32_word arg))

signal_handler-Inv : (s : Loader) → Inv s → Inv (signal_handler true s)
unfolding signal_handler
signal_handler-Inv s v = ground arith

-- The state after PN_CONNECTION_INIT.
abbrev pub opened : Loader → Loader
opened s = record s { calls = Proton.session_open ∷ Proton.connection_open ∷ s.calls }

opened-Inv : (s : Loader) → IsFresh s → Inv (opened (connect s))
unfolding connect
opened-Inv s v = (ground (arith, v.no_calls))

abbrev pub IsLater : Event → Type 0
IsLater e = e ≢ connection_init

-- With conversions that fit their types, every run of `main` of the session loader that begins
-- with PN_CONNECTION_INIT, whatever the command line, the other events and the signals, ends the
-- process or returns with its accounts in order: the links counted are at most the links of a
-- session, and as long as it has not stopped, the sessions opened are those counted and one more,
-- and the messages started since the last of them was opened are as many as the links counted,
-- with their fragments written.
pub session_loader-Inv :
    (scanf : Scanf) (args : List (Letter × String)) (es : List Event) (rounds : List (Round Event))
    → IsScanf scanf
    → All IsLater es
    → All (λ (r : Round Event). All IsLater r.events) rounds
    → Ends
        (λ (r : Bool × Loader). Inv r.1)
        (main scanf args (record { signal = false; events = connection_init ∷ es } ∷ rounds))
unfolding main options event_loop handle_batch event_handler
session_loader-Inv scanf args es rounds law later laters =
    start-Ends IsFresh (λ (r : Bool × Loader). Inv r.1) (options scanf args defaults) _
      (parse-keeps IsFresh (option scanf) (λ c arg s. option-IsFresh scanf c arg s law) args
        defaults ground arith)
      (λ s fresh.
        event_loop-Ends IsLater Inv (signal_handler true) event_handler signal_handler-Inv
          (λ e t q v.
            Ends-of (λ (r : Bool × Loader). Inv r.1) (event_handler e t)
              (λ r. event_handler-Inv e t r.1 r.0 q v) (event_handler_fuel e t))
          (record { signal = false; events = es } ∷ rounds) (opened (connect s)) (later, laters)
          (opened-Inv s fresh))
