-- ===== src/OomSender/Body.antt =====
-- The octets of the messages of the OOM sender, over all its links, and the window of its peer.
use dispatch_tester.Common.{
  String, zero, suc, [], ◌∷◌, ◌*◌, All, count_if, sub64, store, spread, spread-store, Ends-weaken,
  Bool, true, false, List, refl, Ends, Ends-bind, ℕ, ◌+◌, ◌≤◌, ◌<◌, ◌≡◌, ◌⊎◌, inl, inr, Option,
  none, some, Option-cases, sum_of, ok, arith,
}
use dispatch_tester.Proton
use dispatch_tester.Proton.Options.{Letter, Scanf, IfSome, parse-keeps}
use dispatch_tester.Proton.Program.{Round, start-Ends, event_loop-Ends}
use dispatch_tester.OomSender.{
  OomSender, FlowReads, uint32_max, header_size, min_of, open_links, capacity, due, begin_message,
  write_body, continue_message, on_flow, on_delivery, event_handler, Event, connection_init,
  link_flow, delivery, transport_error, proactor_interrupt, proactor_inactive, unhandled,
}
use dispatch_tester.OomSender.Main.{option, options, defaults, connect, signal_handler, main}

-- The octets of a message with so much of its body sent, its header included, if it was begun.
abbrev pub message_octets : Option ℕ → ℕ
message_octets none = 0
message_octets (some sent) = header_size + sent

abbrev pub begun : Option ℕ → ℕ
begun none = 0
begun (some sent) = 1

-- The accounts over the first `n` links: what was written is whole messages, with bodies as long as their
-- headers say, and the part so far of each message in the making, whose body is no longer; a message that
-- was begun is whole or in the making.
pub record Inv (n : ℕ) (s : OomSender) : Type 0 where
  pub octets :
      sum_of Proton.octets s.calls
      ≡ count_if Proton.is_advance s.calls * (header_size + uint32_max)
        + spread message_octets s.sending n
  pub deliveries :
      count_if Proton.is_delivery s.calls
      ≡ count_if Proton.is_advance s.calls + spread begun s.sending n
  pub bounded : (l sent : ℕ) → s.sending l ≡ some sent → sent ≤ uint32_max

-- What the send of the body is given.
abbrev pub amount : FlowReads → ℕ → ℕ
amount r sent = min_of (due sent) (sub64 (capacity r) r.outgoing_bytes)

-- What changes when `more` octets are written on a link, for `new` messages begun and `whole` ended.
record Moved (link : ℕ) (v : Option ℕ) (more new whole : ℕ) (s t : OomSender) : Type 0 where
  sending : t.sending ≡ store s.sending link v
  octets : sum_of Proton.octets t.calls ≡ more + sum_of Proton.octets s.calls
  deliveries : count_if Proton.is_delivery t.calls ≡ new + count_if Proton.is_delivery s.calls
  advances : count_if Proton.is_advance t.calls ≡ whole + count_if Proton.is_advance s.calls

store-bounded :
    (f : ℕ → Option ℕ) (link : ℕ) (v : Option ℕ) (l n : ℕ)
    → ((k m : ℕ) → f k ≡ some m → m ≤ uint32_max)
    → ((m : ℕ) → v ≡ some m → m ≤ uint32_max)
    → store f link v l ≡ some n
    → n ≤ uint32_max
store-bounded f link v l n b c h = (ground (arith, b l n, c n))

Moved-Inv :
    (n link : ℕ) (v : Option ℕ) (more new whole : ℕ) (s t : OomSender)
    → link < n
    → ((m : ℕ) → v ≡ some m → m ≤ uint32_max)
    → message_octets v + whole * (header_size + uint32_max) ≡ more + message_octets (s.sending link)
    → begun v + whole ≡ new + begun (s.sending link)
    → Inv n s
    → Moved link v more new whole s t
    → Inv n t
Moved-Inv n link v more new whole s t less within e f i m = record {
  octets =
      (rw (m.sending, m.advances)
        (omega
          (arith, spread-store message_octets s.sending v link n less, m.octets, i.octets, e)));
  deliveries =
      (rw (m.sending, m.advances)
        (omega (arith, spread-store begun s.sending v link n less, m.deliveries, i.deliveries, f)));
  bounded = λ l k h. store-bounded s.sending link v l k i.bounded within (rw m.sending at h);
}

-- A flow on a message in the making that returns does nothing, ends a message whose body is complete, or
-- writes the amount, within the length in the header.
continue_message-Moved :
    (r : FlowReads) (sent : ℕ) (s : OomSender)
    → sent ≤ uint32_max
    → Ends
        (λ t.
          (t ≡ s)
          ⊎ (((sent ≡ uint32_max) × Moved r.link none 0 0 1 s t)
              ⊎ ((sent + amount r sent ≤ uint32_max)
                  × Moved r.link (some (sent + amount r sent)) (amount r sent) 0 0 s t)))
        (continue_message r sent s)
unfolding continue_message write_body
continue_message-Moved r sent s b = ground arith

continue_message-Inv :
    (n : ℕ) (r : FlowReads) (sent : ℕ) (s : OomSender)
    → r.link < n
    → s.sending r.link ≡ some sent
    → Inv n s
    → Ends (Inv n) (continue_message r sent s)
continue_message-Inv n r sent s less busy v =
    Ends-weaken _ (Inv n) (continue_message r sent s)
      (λ t moved. elim moved [
        | inl e ↦ rw e v
        | inr (inl (full, m)) ↦
            Moved-Inv n r.link none 0 0 1 s t less (λ k e. cc) (rw busy (omega (arith, full)))
              (rw busy refl) v m
        | inr (inr (within, m)) ↦
            Moved-Inv n r.link (some (sent + amount r sent)) (amount r sent) 0 0 s t less
              (λ k e. ground arith) (rw busy (omega arith)) (rw busy refl) v m
      ])
      (continue_message-Moved r sent s (v.bounded r.link sent busy))

begin_message-Moved :
    (r : FlowReads) (s : OomSender) → Moved r.link (some 0) 16 1 0 s (begin_message r s)
unfolding begin_message
begin_message-Moved r s = ground arith

begin_message-sending :
    (r : FlowReads) (s : OomSender) → (begin_message r s).sending r.link ≡ some 0
unfolding begin_message
begin_message-sending r s = ground arith

on_flow-Inv :
    (n : ℕ) (r : FlowReads) (s : OomSender) → r.link < n → Inv n s → Ends (Inv n) (on_flow r s)
unfolding on_flow
on_flow-Inv n r s less v = elim (Option-cases (s.sending r.link)) [
  | inl idle ↦
      (ground (
        arith,
        continue_message-Inv n r 0 (begin_message r s) less (begin_message-sending r s) (
            Moved-Inv n r.link (some 0) 16 1 0 s (begin_message r s) less (λ k e. ground arith)
              (rw idle refl) (rw idle refl) v (begin_message-Moved r s)),
      ))
  | inr (sent, busy) ↦ (ground (arith, continue_message-Inv n r sent s less busy v))
]

-- If a flow on a message in the making, no longer than its header says, returns, it writes
-- nothing, or what it writes together with the octets buffered fits the window of the peer, as its
-- product in 32 bits has it.
pub continue_message_window :
    (r : FlowReads) (n : ℕ) (s t : OomSender)
    → n ≤ uint32_max
    → continue_message r n s ≡ ok t
    → (sum_of Proton.octets t.calls ≡ sum_of Proton.octets s.calls)
      ⊎ (sum_of Proton.octets t.calls + r.outgoing_bytes
          ≤ sum_of Proton.octets s.calls + capacity r)
unfolding continue_message write_body
continue_message_window r n s t b h = ground arith

-- A flow is on one of the first `n` links, and what the peer settles is not in the making.
abbrev pub IsOn : ℕ → Event → Type 0
IsOn n (link_flow r) = r.link < n
IsOn n (delivery updated rs current) = current ≡ none
IsOn n _ = Unit

open_links-counts :
    (n : ℕ) (target : String) (calls : List Proton.Call)
    → let opened = open_links n target calls in
      (sum_of Proton.octets opened ≡ sum_of Proton.octets calls)
      × (count_if Proton.is_delivery opened ≡ count_if Proton.is_delivery calls)
      × (count_if Proton.is_advance opened ≡ count_if Proton.is_advance calls)
unfolding open_links
open_links-counts zero target calls = (refl, refl, refl)
open_links-counts (suc n) target calls =
    (ground (
      arith,
      open_links-counts n target
          (Proton.link_open ∷ Proton.set_target target ∷ Proton.sender_new ∷ calls),
    ))

event_handler-Inv :
    (n : ℕ) (e : Event) (s : OomSender)
    → IsOn n e
    → Inv n s
    → Ends (λ (r : Bool × OomSender). Inv n r.1) (event_handler e s)
unfolding event_handler on_delivery
event_handler-Inv n connection_init s on v =
    (ground (
      arith,
      open_links-counts s.links s.target_address
          (Proton.session_open ∷ Proton.connection_open ∷ s.calls),
    ))
event_handler-Inv n (link_flow r) s on v =
    Ends-bind (Inv n) (λ (r : Bool × OomSender). Inv n r.1) (on_flow r s) (λ t. ok (false, t))
      (on_flow-Inv n r s on v) (λ t h. h)
event_handler-Inv n (delivery updated rs current) s on v = ground arith
event_handler-Inv n transport_error s on v = v
event_handler-Inv n proactor_interrupt s on v = ground arith
event_handler-Inv n proactor_inactive s on v = v
event_handler-Inv n unhandled s on v = v

-- Nothing has been begun or called.
record IsFresh (s : OomSender) : Type 0 where
  idle : (l : ℕ) → s.sending l ≡ none
  no_calls : s.calls ≡ []

option-IsFresh :
    (scanf : Scanf) (c : Letter) (arg : String) (s : OomSender)
    → IsFresh s
    → IfSome IsFresh (option scanf c arg s)
unfolding option
option-IsFresh scanf c arg s v = ground arith

idle_spread :
    (f : ℕ → Option ℕ) (n : ℕ)
    → ((l : ℕ) → f l ≡ none)
    → (spread message_octets f n ≡ 0) × (spread begun f n ≡ 0)
idle_spread f zero h = (refl, refl)
idle_spread f (suc n) h = (ground (arith, h n, idle_spread f n h))

connect-Inv : (n : ℕ) (s : OomSender) → IsFresh s → Inv n (connect s)
unfolding connect
connect-Inv n s v = record {
  octets = (ground (arith, v.no_calls, idle_spread s.sending n v.idle));
  deliveries = (ground (arith, v.no_calls, idle_spread s.sending n v.idle));
  bounded = λ l k e. (ground (arith, v.idle l, e));
}

signal_handler-Inv : (n : ℕ) (s : OomSender) → Inv n s → Inv n (signal_handler true s)
unfolding signal_handler
signal_handler-Inv n s v = ground arith

-- Every run of `main` of the OOM sender in which all flows are on `n` links and no delivery that
-- is still current is updated by the peer, whatever the command line, the other events, the
-- signals and the answers of the library, ends the process or returns with its accounts in order:
-- the octets written are, over all links, one header and a body of the length in it for each
-- message completed, and a header and the octets counted for each in the making, of which no count
-- is more than that length; and each message begun is completed or in the making.
pub oom_sender-Inv :
    (n : ℕ) (scanf : Scanf) (args : List (Letter × String)) (rounds : List (Round Event))
    → All (λ (r : Round Event). All (IsOn n) r.events) rounds
    → Ends (λ (r : Bool × OomSender). Inv n r.1) (main scanf args rounds)
unfolding main options
oom_sender-Inv n scanf args rounds on =
    start-Ends IsFresh (λ (r : Bool × OomSender). Inv n r.1) (options scanf args defaults) _
      (parse-keeps IsFresh (option scanf) (option-IsFresh scanf) args defaults
        (record { idle = λ l. refl; no_calls = refl }))
      (λ s fresh.
        event_loop-Ends (IsOn n) (Inv n) (signal_handler true) event_handler (signal_handler-Inv n)
          (λ e t q w. event_handler-Inv n e t q w) rounds (connect s) on (connect-Inv n s fresh))
