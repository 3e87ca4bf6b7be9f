-- ===== src/OomReceiver.antt =====
-- skupper-router/oomster/oom-receiver.c: a receiver that grants credit on a set of links and never reads,
-- so that its peer has to hold the messages back.
mod Window
mod Examples
pub mod Main
use dispatch_tester.Common.{
  ℕ, zero, suc, ◌+◌, ◌*◌, ◌/◌, String, Bool, true, false, not, ◌&&◌, if◌then◌else◌, leb, ◌==◌, List,
  [], ◌∷◌, u32, ℤ, pos, negsuc, Run, ok, halt, aborted, assert_failed, ◌>>=◌,
}
use dispatch_tester.Proton
use dispatch_tester.Proton.Links.{open_receivers}

pub record OomReceiver : Type 0 where
  pub stop : Bool
  pub debug_mode : Bool
  pub links : ℕ
  pub credit_window : ℕ
  pub in_max_frame : ℕ
  pub per_link_session_frames : ℕ
  pub source_address : String
  pub host_address : String
  pub container_name : String
  pub calls : List Proton.Call

-- PN_CONNECTION_BOUND comes with what `pn_session_set_incoming_window_and_lwm` answers.
pub data Event : Type 0 where
  connection_bound : ℤ → Event
  delivery : Event
  transport_error : Event
  proactor_interrupt : Event
  proactor_inactive : Event
  unhandled : Event

abbrev pub emit : Proton.Call → OomReceiver → OomReceiver
emit c s = record s { calls = c ∷ s.calls }

-- The incoming window for all links, in frames.
abbrev pub window : OomReceiver → ℕ
window s = u32 (s.per_link_session_frames * s.links)

abbrev pub check_window : ℤ → OomReceiver → Run OomReceiver
check_window (pos zero) s = ok (emit (Proton.set_window (window s) (window s / 2)) s)
check_window _ s = halt aborted

-- `if (per_link_session_frames)` and its body, which is compiled for a library after version 0.39.
unfoldable pub limit_window : ℤ → OomReceiver → Run OomReceiver
limit_window rc s =
    if s.per_link_session_frames == 0
    then ok s
    else if leb 2 (window s)
    then check_window rc s
    else halt assert_failed

-- PN_CONNECTION_BOUND.
unfoldable pub on_bound : ℤ → OomReceiver → Run OomReceiver
on_bound rc s = do
  let a : OomReceiver =
      if s.in_max_frame == 0 then s else emit (Proton.set_max_frame s.in_max_frame) s
  b ← limit_window rc (emit Proton.connection_open a)
  ok (record b {
    calls = open_receivers b.links b.source_address b.credit_window (Proton.session_open ∷ b.calls);
  })

-- The result is whether the client has stopped. A delivery is left alone.
unfoldable pub event_handler : Event → OomReceiver → Run (Bool × OomReceiver)
event_handler (connection_bound rc) s = on_bound rc s >>= λ t. ok (false, t)
event_handler delivery s = ok (false, s)
event_handler transport_error s = ok (false, s)
event_handler proactor_interrupt s = if s.stop then ok (true, s) else halt assert_failed
event_handler proactor_inactive s = ok (true, s)
event_handler unhandled s = ok (false, s)
