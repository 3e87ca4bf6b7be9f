-- ===== src/Scale/Punisher/Flow.antt =====
-- What the punisher sends, and when it closes.
use dispatch_tester.Common.{
  ℕ, zero, suc, ◌+◌, ◌*◌, ◌≤◌, ◌<◌, ◌≡◌, true, List, [], ◌∷◌, count_if, sum_of, All, arith,
}
use dispatch_tester.Proton
use dispatch_tester.Scale.Punisher.Main.{Main}
use dispatch_tester.Scale.Punisher.{
  AppData, Event, connection_init, link_flow, delivery, unhandled, on_init, send_one, may_send,
  send_loop, on_delivery, event_handler, run, main_round, main_loop,
}

-- The accounts of the punisher: each message sent has its delivery, its octets and its advance, and no
-- more are sent than asked for.
pub record Inv (s : AppData) : Type 0 where
  pub tags : s.tag ≡ s.sent
  pub deliveries : count_if Proton.is_delivery s.calls ≡ s.sent
  pub advances : count_if Proton.is_advance s.calls ≡ s.sent
  pub octets : sum_of Proton.octets s.calls ≡ s.sent * s.msg_len
  pub bounded : 0 < s.count → s.sent ≤ s.count

one_more : (n size : ℕ) → (n + 1) * size ≡ n * size + size
one_more n size = omega arith

send_one-Inv : (s : AppData) → may_send s ≡ true → Inv s → Inv (send_one s)
unfolding send_one
send_one-Inv s m v = (ground (arith, one_more s.sent s.msg_len))

send_loop-Inv : (credit : ℕ) (s : AppData) → Inv s → Inv (send_loop credit s)
unfolding send_loop
send_loop-Inv zero s v = v
send_loop-Inv (suc credit) s v = (ground (arith, send_one-Inv s, send_loop-Inv credit (send_one s)))

event_handler-Inv : (e : Event) (s : AppData) → Inv s → Inv (event_handler e s)
unfolding event_handler on_init on_delivery
event_handler-Inv connection_init s v = ground arith
event_handler-Inv (link_flow credit) s v = send_loop-Inv credit s v
event_handler-Inv (delivery updated rs) s v = ground arith
event_handler-Inv unhandled s v = v

run-Inv : (es : List Event) (s : AppData) → Inv s → Inv (run es s)
unfolding run
run-Inv [] s v = v
run-Inv (e ∷ es) s v = run-Inv es (event_handler e s) (event_handler-Inv e s v)

main_round-Inv : (s : AppData) → Inv s → Inv (main_round s)
unfolding main_round
main_round-Inv s v = ground arith

-- Whatever events each round of the main loop of the punisher dispatches, it keeps the accounts,
-- if they held: the deliveries, advances and tags are as many as the messages sent, the octets are
-- that many times the message, and no more are sent than a limit that is not zero.
pub punish-Inv : (rounds : List (List Event)) (s : AppData) → Inv s → Inv (main_loop rounds s)
unfolding main_loop
punish-Inv [] s v = v
punish-Inv (es ∷ rounds) s v =
    punish-Inv rounds (main_round (run es s)) (main_round-Inv (run es s) (run-Inv es s v))

-- Nothing has been sent.
record IsFresh (m : Main) : Type 0 where
  none_sent : m.app_data.sent ≡ 0
  no_tag : m.app_data.tag ≡ 0
  no_calls : m.app_data.calls ≡ []

-- Events without a flow.
abbrev pub IsQuiet : Event → Type 0
IsQuiet (link_flow credit) = ⊥
IsQuiet _ = Unit

abbrev closes : AppData → ℕ
closes s = count_if Proton.is_connection_close s.calls

quiet :
    (e : Event) (s : AppData)
    → IsQuiet e
    → ((event_handler e s).sent ≡ s.sent)
      × ((event_handler e s).count ≡ s.count)
      × ((event_handler e s).presettle ≡ s.presettle)
unfolding event_handler on_init on_delivery
quiet e s q = ground arith

-- With messages presettled, no limit on their number and none sent, a round of the main loop whose
-- events have no flow closes the connection, although nothing was sent.
forever_closes :
    (es : List Event) (s : AppData)
    → All IsQuiet es
    → s.count ≡ 0
    → s.sent ≡ 0
    → s.presettle ≡ true
    → let t = run es s in
      ((main_round t).sent ≡ 0)
      × (count_if Proton.is_connection_close (main_round t).calls
          ≡ suc (count_if Proton.is_connection_close t.calls))
unfolding main_round run
forever_closes [] s q c z p = ground arith
forever_closes (e ∷ es) s q c z p =
    let (sent, count, presettle) = quiet e s q.0 in
    forever_closes es (event_handler e s) q.1 (omega (arith, count)) (omega (arith, sent))
      (ground (arith, presettle))
