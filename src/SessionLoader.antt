-- ===== src/SessionLoader.antt =====
-- skupper-router/clients/session-loader.c: opens a session with a set of links, starts a message on
-- each, closes the session with the messages in flight, and repeats.
mod Session
mod Progress
mod Complete
pub mod Main
mod Examples
use dispatch_tester.Common.{
  ℕ, zero, suc, ◌+◌, String, Bool, true, false, not, ◌&&◌, if◌then◌else◌, ltb, ◌==◌, List, [], ◌∷◌,
  u32, ℤ, pos, negsuc, Run, ok, halt, exit_code, ◌>>=◌,
}
use dispatch_tester.Proton
use dispatch_tester.Proton.Links.{handle_batch}

pub record Loader : Type 0 where
  pub stop : Bool
  pub verbose : Bool
  pub session_limit : ℕ
  pub link_limit : ℕ
  pub session_count : ℕ
  pub link_count : ℕ
  pub target_address : String
  pub host_address : String
  pub container_name : String
  pub tag : ℕ
  pub calls : List Proton.Call

-- `sizeof(msg_fragment)`.
abbrev pub fragment_size : ℕ
fragment_size = 16

-- What a PN_LINK_FLOW finds: whether the link has a current delivery, its credit, whether a delivery
-- was made, and what `pn_link_send` answers.
pub record FlowReads : Type 0 where
  pub current : Bool
  pub credit : ℕ
  pub made : Bool
  pub rc : ℤ

-- A session event comes with whether both ends are in the state that is waited for.
pub data Event : Type 0 where
  connection_init : Event
  session_opened : Bool → Event
  link_flow : FlowReads → Event
  session_closed : Bool → Event
  proactor_inactive : Event
  proactor_interrupt : Event
  unhandled : Event

-- The loop that opens `n` links.
unfoldable pub open_links : ℕ → String → List Proton.Call → List Proton.Call
open_links zero target calls = calls
open_links (suc n) target calls =
    open_links n target (Proton.link_open ∷ Proton.set_target target ∷ Proton.sender_new ∷ calls)

-- The octets of the fragment must all be taken.
abbrev pub check_sent : ℤ → Loader → Run Loader
check_sent (pos n) s =
    if n == fragment_size
    then ok (record s { calls = Proton.link_send n ∷ s.calls })
    else halt (exit_code 1)
check_sent (negsuc n) s = halt (exit_code 1)

unfoldable pub start_message : FlowReads → Loader → Run Loader
start_message r s =
    if r.current
    then halt (exit_code 1)
    else if r.made
    then check_sent r.rc (record s { tag = s.tag + 1; calls = Proton.delivery_new s.tag ∷ s.calls })
    else halt (exit_code 1)

-- The session is torn down once each link has a message in flight.
unfoldable pub count_link : Loader → Loader
count_link s =
    let n : ℕ = u32 (s.link_count + 1) in
    record s {
      link_count = n;
      calls = if n == s.link_limit then Proton.session_close ∷ s.calls else s.calls;
    }

-- PN_LINK_FLOW.
unfoldable pub on_flow : FlowReads → Loader → Run Loader
on_flow r s =
    if ltb s.link_count s.link_limit && (not r.current && ltb 0 r.credit)
    then (start_message r s >>= λ t. ok (count_link t))
    else ok s

-- PN_SESSION_REMOTE_OPEN and PN_SESSION_LOCAL_OPEN.
unfoldable pub on_opened : Bool → Loader → Loader
on_opened active s =
    if active then record s { calls = open_links s.link_limit s.target_address s.calls } else s

-- PN_SESSION_REMOTE_CLOSE and PN_SESSION_LOCAL_CLOSE.
unfoldable pub on_closed : Bool → Loader → Loader
on_closed closed s =
    let t : Loader = record s { session_count = u32 (s.session_count + 1) } in
    if closed
    then (if ltb t.session_count t.session_limit
        then record t {
          link_count = 0;
          calls = Proton.session_open ∷ Proton.session_free ∷ t.calls;
        }
        else record t { stop = true; calls = Proton.wakeup ∷ t.calls })
    else s

-- The result is whether the client has stopped.
unfoldable pub event_handler : Event → Loader → Run (Bool × Loader)
event_handler connection_init s =
    ok (false, record s { calls = Proton.session_open ∷ Proton.connection_open ∷ s.calls })
event_handler (session_opened active) s = ok (false, on_opened active s)
event_handler (link_flow r) s = on_flow r s >>= λ t. ok (false, t)
event_handler (session_closed closed) s = ok (false, on_closed closed s)
event_handler proactor_inactive s = ok (true, record s { stop = true })
event_handler proactor_interrupt s = ok (s.stop, s)
event_handler unhandled s = ok (false, s)

-- The events of a batch, up to the one that stops the client.
unfoldable pub batch : List Event → Loader → Run (Bool × Loader)
batch = handle_batch event_handler
