-- ===== src/LinkSender/Close.antt =====
-- The accounts of the link sender, and when it stops.
use dispatch_tester.Common.{
  ℕ, ◌+◌, ◌≤◌, ◌≡◌, Bool, true, false, Option, none, String, refl, some, Option-cases, inl, inr,
  List, ◌∷◌, map, All, length, [], ◌==◌, count_if, store, ok, Ends, Ends-bind, Ends-weaken, ◌∙◌,
  sym, arith, ◌<◌, zero, suc, ◌⊎◌, sum_of, spread, spread-store,
}
use dispatch_tester.Proton
use dispatch_tester.Proton.Options.{Letter, Scanf, IfSome, parse-keeps}
use dispatch_tester.Proton.Program.{Round, start-Ends, event_loop-Ends}
use dispatch_tester.Proton.Links.{open_senders-counts, handle_batch, IsTerminal}
use dispatch_tester.LinkSender.{
  LinkSender, FlowReads, Event, connection_init, link_flow, delivery, proactor_inactive,
  proactor_interrupt, unhandled, amount, send_all, start_message, count_sent, write_body,
  continue_message, on_flow, on_delivery, event_handler,
}
use dispatch_tester.LinkSender.Main.{
  option, options, defaults, connect, signal_handler, batch, main,
}

-- The octets of a message with so much of its body sent: its header and that much, if it was begun.
abbrev pub message_octets : Option ℕ → ℕ
message_octets none = 0
message_octets (some sent) = 16 + sent

-- Each link that was closed is counted and had its delivery settled, each delivery has its own tag, what
-- was written is, over the first `n` links, the header of each message begun and the octets of body that
-- are counted for it, and no count exceeds the length in the header.
pub record Inv (n : ℕ) (s : LinkSender) : Type 0 where
  pub closed : s.closed_links ≡ count_if Proton.is_link_close s.calls
  pub settled : count_if Proton.is_settle s.calls ≡ count_if Proton.is_link_close s.calls
  pub tagged : s.tag ≡ count_if Proton.is_delivery s.calls
  pub octets : sum_of Proton.octets s.calls ≡ spread message_octets s.sending n
  pub bounded : (l sent : ℕ) → s.sending l ≡ some sent → sent ≤ s.body_length

store-bounded :
    (f : ℕ → Option ℕ) (link v limit l n : ℕ)
    → ((k m : ℕ) → f k ≡ some m → m ≤ limit)
    → v ≤ limit
    → store f link (some v) l ≡ some n
    → n ≤ limit
store-bounded f link v limit l n b c h = (ground (arith, b l n))

-- What changes when `more` octets bring the body on a link to `sent`, in one of `begun` new messages.
record Moved (link sent more begun : ℕ) (s t : LinkSender) : Type 0 where
  sending : t.sending ≡ store s.sending link (some sent)
  octets : sum_of Proton.octets t.calls ≡ more + sum_of Proton.octets s.calls
  tag : t.tag ≡ begun + s.tag
  deliveries : count_if Proton.is_delivery t.calls ≡ begun + count_if Proton.is_delivery s.calls
  links : t.closed_links ≡ s.closed_links
  closes : count_if Proton.is_link_close t.calls ≡ count_if Proton.is_link_close s.calls
  settles : count_if Proton.is_settle t.calls ≡ count_if Proton.is_settle s.calls
  length : t.body_length ≡ s.body_length

Moved-Inv :
    (n link sent more begun : ℕ) (s t : LinkSender)
    → link < n
    → sent ≤ s.body_length
    → 16 + sent ≡ more + message_octets (s.sending link)
    → Inv n s
    → Moved link sent more begun s t
    → Inv n t
Moved-Inv n link sent more begun s t less within e v m = record {
  closed = m.links ∙ v.closed ∙ sym m.closes;
  settled = m.settles ∙ v.settled ∙ sym m.closes;
  tagged = omega (arith, m.tag, m.deliveries, v.tagged);
  octets =
      (rw m.sending (
        omega (
          arith,
          spread-store message_octets s.sending (some sent) link n less,
          m.octets,
          v.octets,
          e,
        )));
  bounded = λ l k h.
      (rw m.length
        (store-bounded s.sending link sent s.body_length l k v.bounded within (rw m.sending at h)));
}

start_message-Moved :
    (r : FlowReads) (s : LinkSender) → Ends (Moved r.link 0 16 1 s) (start_message r s)
unfolding start_message send_all
start_message-Moved r s = ground arith

start_message-Inv :
    (n : ℕ) (r : FlowReads) (s : LinkSender)
    → r.link < n
    → s.sending r.link ≡ none
    → Inv n s
    → Ends (Inv n) (start_message r s)
start_message-Inv n r s less idle v =
    Ends-weaken (Moved r.link 0 16 1 s) (Inv n) (start_message r s)
      (λ t m. Moved-Inv n r.link 0 16 1 s t less (omega arith) (rw idle refl) v m)
      (start_message-Moved r s)

-- A flow on a message in the making sends the amount that is due, or nothing.
write_body-Moved :
    (r : FlowReads) (sent : ℕ) (s : LinkSender)
    → Ends
        (λ t.
          (t ≡ s)
          ⊎ ((sent + amount s sent ≤ s.body_length)
              × Moved r.link (sent + amount s sent) (amount s sent) 0 s t))
        (write_body r sent s)
unfolding write_body send_all count_sent
write_body-Moved r sent s = ground arith

write_body-Inv :
    (n : ℕ) (r : FlowReads) (sent : ℕ) (s : LinkSender)
    → r.link < n
    → s.sending r.link ≡ some sent
    → Inv n s
    → Ends (Inv n) (write_body r sent s)
write_body-Inv n r sent s less busy v =
    Ends-weaken _ (Inv n) (write_body r sent s)
      (λ t moved. elim moved [
        | inl e ↦ rw e v
        | inr (within, m) ↦
            Moved-Inv n r.link (sent + amount s sent) (amount s sent) 0 s t less within
              (rw busy (omega arith)) v m
      ])
      (write_body-Moved r sent s)

continue_message-Inv :
    (n : ℕ) (r : FlowReads) (s : LinkSender)
    → r.link < n
    → Inv n s
    → Ends (Inv n) (continue_message r s)
unfolding continue_message
continue_message-Inv n r s less v = elim (Option-cases (s.sending r.link)) [
  | inl e ↦ rw (e, continue_message) v
  | inr (sent, e) ↦ rw (e, continue_message) (write_body-Inv n r sent s less e v)
]

on_flow-Inv :
    (n : ℕ) (r : FlowReads) (s : LinkSender) → r.link < n → Inv n s → Ends (Inv n) (on_flow r s)
unfolding on_flow
on_flow-Inv n r s less v = elim (Option-cases (s.sending r.link)) [
  | inl e ↦
      (ground (
        arith,
        Ends-bind (Inv n) (Inv n) (start_message r s) (continue_message r)
            (start_message-Inv n r s less e v) (λ t h. continue_message-Inv n r t less h),
        continue_message-Inv n r s less v,
      ))
  | inr (sent, e) ↦ (ground (arith, continue_message-Inv n r s less v))
]

-- A flow is on one of the first `n` links.
abbrev pub IsOn : ℕ → Event → Type 0
IsOn n (link_flow r) = r.link < n
IsOn n _ = Unit

event_handler-Inv :
    (n : ℕ) (e : Event) (s : LinkSender)
    → IsOn n e
    → Inv n s
    → Ends (λ (r : Bool × LinkSender). Inv n r.1) (event_handler e s)
unfolding event_handler on_delivery
event_handler-Inv n connection_init s on v =
    (ground (
      arith,
      open_senders-counts s.max_links s.target_address
          (Proton.session_open ∷ Proton.connection_open ∷ s.calls),
    ))
event_handler-Inv n (link_flow r) s on v =
    Ends-bind (Inv n) (λ (r : Bool × LinkSender). Inv n r.1) (on_flow r s) (λ t. ok (false, t))
      (on_flow-Inv n r s on v) (λ t h. h)
event_handler-Inv n (delivery updated rs) s on v = ground arith
event_handler-Inv n proactor_inactive s on v = v
event_handler-Inv n proactor_interrupt s on v = v
event_handler-Inv n unhandled s on v = v

-- Nothing has been sent or closed.
record IsFresh (s : LinkSender) : Type 0 where
  none_closed : s.closed_links ≡ 0
  no_tag : s.tag ≡ 0
  idle : (l : ℕ) → s.sending l ≡ none
  no_calls : s.calls ≡ []

option-IsFresh :
    (scanf : Scanf) (c : Letter) (arg : String) (s : LinkSender)
    → IsFresh s
    → IfSome IsFresh (option scanf c arg s)
unfolding option
option-IsFresh scanf c arg s v = ground arith

idle_octets : (f : ℕ → Option ℕ) (n : ℕ) → ((l : ℕ) → f l ≡ none) → spread message_octets f n ≡ 0
idle_octets f zero h = refl
idle_octets f (suc n) h = (ground (arith, h n, idle_octets f n h))

connect-Inv : (n : ℕ) (s : LinkSender) → IsFresh s → Inv n (connect s)
unfolding connect
connect-Inv n s v = record {
  closed = (ground (arith, v.none_closed, v.no_calls));
  settled = (ground (arith, v.no_calls));
  tagged = (ground (arith, v.no_tag, v.no_calls));
  octets = (ground (arith, v.no_calls, idle_octets s.sending n v.idle));
  bounded = λ l k e. (ground (arith, v.idle l, e));
}

signal_handler-Inv : (n : ℕ) (s : LinkSender) → Inv n s → Inv n (signal_handler true s)
unfolding signal_handler
signal_handler-Inv n s v = ground arith

-- Every run of `main` of the link sender in which all flows are on `n` links, whatever the command
-- line, the other events and the signals, ends the process or returns with its accounts in order:
-- links closed are counted and as many as deliveries settled, there is a tag for each delivery,
-- the octets written are, over all links, the header of each message begun and the octets counted
-- for its body, and no count is more than the length in the header.
pub link_sender-Inv :
    (n : ℕ) (scanf : Scanf) (args : List (Letter × String)) (rounds : List (Round Event))
    → All (λ (r : Round Event). All (IsOn n) r.events) rounds
    → Ends (λ (r : Bool × LinkSender). Inv n r.1) (main scanf args rounds)
unfolding main options
link_sender-Inv n scanf args rounds on =
    start-Ends IsFresh (λ (r : Bool × LinkSender). Inv n r.1) (options scanf args defaults) _
      (parse-keeps IsFresh (option scanf) (option-IsFresh scanf) args defaults
        (record { none_closed = refl; no_tag = refl; idle = λ l. refl; no_calls = refl }))
      (λ s fresh.
        event_loop-Ends (IsOn n) (Inv n) (signal_handler true) event_handler (signal_handler-Inv n)
          (λ e t q w. event_handler-Inv n e t q w) rounds (connect s) on (connect-Inv n s fresh))

-- A link that is done with.
abbrev pub closed : LinkSender → LinkSender
closed s = record s {
  closed_links = s.closed_links + 1;
  calls = Proton.link_close ∷ Proton.delivery_settle ∷ s.calls;
}

pub close :
    (rs : Proton.Disposition) (s : LinkSender)
    → IsTerminal rs
    → on_delivery true rs s ≡ ((closed s).closed_links == s.max_links, closed s)
unfolding on_delivery
close rs s v = ground arith

-- The events of terminal dispositions.
abbrev pub ends : List Proton.Disposition → List Event
ends = map (delivery true)

-- When as many links are still to be closed as there are updated deliveries with a terminal state,
-- and at least one, the client stops at the last of them, with all links counted, and each
-- delivery is settled and each link closed.
pub last_close :
    (rs : Proton.Disposition) (rss : List Proton.Disposition) (s : LinkSender)
    → All IsTerminal (rs ∷ rss)
    → s.closed_links + length (rs ∷ rss) ≡ s.max_links
    → (t : LinkSender) × (batch (ends (rs ∷ rss)) s ≡ ok (true, t))
      × (t.closed_links ≡ s.max_links)
      × (count_if Proton.is_link_close t.calls
          ≡ length (rs ∷ rss) + count_if Proton.is_link_close s.calls)
      × (count_if Proton.is_settle t.calls ≡ length (rs ∷ rss) + count_if Proton.is_settle s.calls)
unfolding batch handle_batch event_handler
last_close rs [] s v e =
    (closed s, (ground (arith, close rs s v.0)), omega arith, omega arith, omega arith)
last_close rs (rs' ∷ rss) s v e =
    let (t, run, all, links, settled) = last_close rs' rss (closed s) v.1 (omega arith) in
    (
      t,
      (ground (arith, close rs s v.0, run)),
      all,
      (omega (arith, links)),
      (omega (arith, settled)),
    )
