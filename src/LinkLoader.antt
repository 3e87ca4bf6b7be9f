-- ===== src/LinkLoader.antt =====
-- skupper-router/clients/link-loader.c: opens a set of links, starts a message on each, closes them all
-- with the messages in flight, and repeats.
mod Batches
mod Cycle
mod Complete
pub mod Main
mod Examples
use dispatch_tester.Common.{
  ℕ, zero, suc, ◌+◌, ◌-◌, String, Bool, true, false, not, ◌&&◌, if◌then◌else◌, ltb, ◌==◌, List, [],
  ◌∷◌, u32, ℤ, pos, negsuc, Run, ok, halt, exit_code, assert_failed, ◌>>=◌,
}
use dispatch_tester.Proton
use dispatch_tester.Proton.Links.{handle_batch}

pub record Loader : Type 0 where
  pub stop : Bool
  pub verbose : Bool
  pub link_limit : ℕ
  pub repeat_count : ℕ
  pub link_count : ℕ
  pub target_address : String
  pub host_address : String
  pub container_name : String
  pub tag : ℕ
  pub calls : List Proton.Call

-- `sizeof(msg_fragment)`.
abbrev pub fragment_size : ℕ
fragment_size = 16

-- What a PN_LINK_FLOW finds: whether the link has a current delivery, its credit, whether a delivery
-- was made, what `pn_link_send` answers, and how many links of the connection are locally active.
pub record FlowReads : Type 0 where
  pub current : Bool
  pub credit : ℕ
  pub made : Bool
  pub rc : ℤ
  pub active : ℕ

pub data Event : Type 0 where
  connection_init : Event
  link_flow : FlowReads → Event
  link_remote_close : Bool → Event  -- whether both ends are closed
  proactor_inactive : Event
  proactor_interrupt : Event
  unhandled : Event

-- The loops that open `n` links, and that close `n`.
unfoldable pub open_links : ℕ → String → List Proton.Call → List Proton.Call
open_links zero target calls = calls
open_links (suc n) target calls =
    open_links n target (Proton.link_open ∷ Proton.set_target target ∷ Proton.sender_new ∷ calls)

unfoldable pub close_links : ℕ → List Proton.Call → List Proton.Call
close_links zero calls = calls
close_links (suc n) calls = close_links n (Proton.link_close ∷ calls)

-- The octets of the fragment must all be taken.
abbrev pub check_sent : ℤ → Loader → Run Loader
check_sent (pos n) s =
    if n == fragment_size
    then ok (record s { calls = Proton.link_send n ∷ s.calls })
    else halt (exit_code 1)
check_sent (negsuc n) s = halt (exit_code 1)

unfoldable pub start_message : FlowReads → Loader → Run Loader
start_message r s =
    if r.current
    then halt (exit_code 1)
    else if r.made
    then check_sent r.rc (record s { tag = s.tag + 1; calls = Proton.delivery_new s.tag ∷ s.calls })
    else halt (exit_code 1)

-- Once each link has a message in flight, all are closed.
unfoldable pub count_link : FlowReads → Loader → Loader
unfolding close_links
count_link r s =
    let n : ℕ = u32 (s.link_count + 1) in
    record s {
      link_count = n;
      calls = if n == s.link_limit then close_links r.active s.calls else s.calls;
    }

-- PN_LINK_FLOW.
unfoldable pub on_flow : FlowReads → Loader → Run Loader
on_flow r s =
    if ltb s.link_count s.link_limit && (not r.current && ltb 0 r.credit)
    then (start_message r s >>= λ t. ok (count_link r t))
    else ok s

-- The last link of a cycle is gone.
unfoldable pub next_cycle : Loader → Run Loader
unfolding open_links
next_cycle s =
    if s.repeat_count == 0
    then halt assert_failed
    else if ltb 0 (s.repeat_count - 1)
    then ok (record s {
      repeat_count = s.repeat_count - 1;
      calls = open_links s.link_limit s.target_address s.calls;
    })
    else ok (record s {
      repeat_count = s.repeat_count - 1;
      stop = true;
      calls = Proton.wakeup ∷ s.calls;
    })

-- PN_LINK_REMOTE_CLOSE.
unfoldable pub on_close : Bool → Loader → Run Loader
on_close both s =
    let t : Loader = record s {
      link_count = s.link_count - 1;
      calls = Proton.link_free ∷ s.calls;
    } in
    if both
    then (if s.link_count == 0
        then halt assert_failed
        else if t.link_count == 0
        then next_cycle t
        else ok t)
    else ok s

-- PN_CONNECTION_INIT.
unfoldable pub on_init : Loader → Loader
unfolding open_links
on_init s = record s {
  calls =
      open_links s.link_limit s.target_address
        (Proton.session_open ∷ Proton.connection_open ∷ s.calls);
}

-- The result is whether the client has stopped.
unfoldable pub event_handler : Event → Loader → Run (Bool × Loader)
event_handler connection_init s = ok (false, on_init s)
event_handler (link_flow r) s = on_flow r s >>= λ t. ok (false, t)
event_handler (link_remote_close both) s = on_close both s >>= λ t. ok (false, t)
event_handler proactor_inactive s = ok (true, record s { stop = true })
event_handler proactor_interrupt s = ok (s.stop, s)
event_handler unhandled s = ok (false, s)

-- The events of a batch, up to the one that stops the client.
unfoldable pub batch : List Event → Loader → Run (Bool × Loader)
batch = handle_batch event_handler
