-- ===== src/LinkSender/Body.antt =====
-- The body of a message of the link sender: it is out after as many flows as it has buffers.
use dispatch_tester.Common.{
  ℕ, suc, ◌+◌, ◌*◌, ◌≤◌, ◌<◌, ◌^◌, ◌≡◌, refl, ◌∙◌, true, false, none, some, List, [], ◌∷◌, map,
  length, All, pos, count_if, sum_of, store, ok, if◌then◌else◌, ltb, ◌==◌, arith,
}
use dispatch_tester.Proton
use dispatch_tester.Proton.Links.{handle_batch}
use dispatch_tester.LinkSender.{
  LinkSender, FlowReads, link_flow, tx_buffer_size, amount, send_all, start_message, count_sent,
  write_body, continue_message, on_flow, event_handler,
}
use dispatch_tester.LinkSender.Main.{batch}

-- A flow on a link that is up, whose delivery is writable, with a library that takes what it is given.
pub record IsReady (link : ℕ) (r : FlowReads) : Type 0 where
  pub at : r.link ≡ link
  pub up : r.active ≡ true
  pub free : r.writable ≡ true
  pub takes : (n : ℕ) → r.rc n ≡ pos n

-- The first flow finds credit and no delivery.
pub record IsFirst (r : FlowReads) : Type 0 where
  pub some_credit : 0 < r.credit
  pub idle : r.current ≡ false
  pub new : r.made ≡ true

-- The octets of body that are out after `k` more flows.
abbrev pub reach : LinkSender → ℕ → ℕ → ℕ
reach s n k =
    if ltb s.body_length (n + k * tx_buffer_size) then s.body_length else n + k * tx_buffer_size

-- What has changed between two states when a link has gone from `n` octets of body to `m`.
pub record Moved (link n m : ℕ) (s t : LinkSender) : Type 0 where
  pub now : t.sending link ≡ some m
  pub octets : sum_of Proton.octets t.calls + n ≡ sum_of Proton.octets s.calls + m
  pub advances :
      count_if Proton.is_advance t.calls
      ≡ (if ltb n m then (if m == s.body_length then 1 else 0) else 0)
        + count_if Proton.is_advance s.calls
  pub others : (k : ℕ) → (k == link) ≡ false → t.sending k ≡ s.sending k
  pub body : t.body_length ≡ s.body_length

send_all-takes :
    (r : FlowReads) (link size : ℕ) (s : LinkSender)
    → IsReady link r
    → size < 2 ^ 64
    → send_all r size s ≡ ok (record s { calls = Proton.link_send size ∷ s.calls })
unfolding send_all
send_all-takes r link size s v h = (ground (arith, v.takes size))

-- What one flow leaves.
abbrev flowed : FlowReads → ℕ → LinkSender → LinkSender
flowed r n s =
    count_sent r (n + amount s n) (record s { calls = Proton.link_send (amount s n) ∷ s.calls })

flow_writes :
    (r : FlowReads) (link n : ℕ) (s : LinkSender)
    → IsReady link r
    → s.body_length < 2 ^ 32
    → s.sending link ≡ some n
    → on_flow r s ≡ ok (if ltb n s.body_length then flowed r n s else s)
unfolding on_flow continue_message write_body
flow_writes r link n s v w e =
    (ground (arith, send_all-takes r link (amount s n) s v, v.at, v.up, v.free))

flow_moves :
    (r : FlowReads) (link n : ℕ) (s : LinkSender)
    → IsReady link r
    → s.sending link ≡ some n
    → n ≤ s.body_length
    → Moved link n (reach s n 1) s (if ltb n s.body_length then flowed r n s else s)
unfolding count_sent
flow_moves r link n s v e b = (ground (arith, v.at))

Moved-trans :
    (link n m p : ℕ) (s u t : LinkSender)
    → n ≤ m
    → m ≤ p
    → p ≤ s.body_length
    → Moved link n m s u
    → Moved link m p u t
    → Moved link n p s t
Moved-trans link n m p s u t h k b first rest = record {
  now = rest.now;
  octets = omega (arith, first.octets, rest.octets);
  advances = (ground (arith, first.advances, rest.advances, first.body));
  others = λ i other. rest.others i other ∙ first.others i other;
  body = rest.body ∙ first.body;
}

flows_move :
    (rs : List FlowReads) (link n : ℕ) (s : LinkSender)
    → All (IsReady link) rs
    → s.body_length < 2 ^ 32
    → s.sending link ≡ some n
    → n ≤ s.body_length
    → (t : LinkSender) × (batch (map link_flow rs) s ≡ ok (false, t))
      × Moved link n (reach s n (length rs)) s t
unfolding batch handle_batch event_handler
flows_move [] link n s v w e b = (s, refl, (ground (arith, e)))
flows_move (r ∷ rs) link n s v w e b =
    let u : LinkSender = if ltb n s.body_length then flowed r n s else s in
    let moved : Moved link n (reach s n 1) s u = flow_moves r link n s v.0 e b in
    let same : u.body_length ≡ s.body_length = moved.body in
    let (t, run, rest) =
      flows_move rs link (reach s n 1) u v.1 (omega (arith, same, w)) moved.now
        (ground (arith, same, b)) in
    let all : reach u (reach s n 1) (length rs) ≡ reach s n (suc (length rs)) =
      (ground (arith, same)) in
    (
      t,
      (rw (flow_writes r link n s v.0 w e) run),
      rw all at (
          Moved-trans link n (reach s n 1) (reach u (reach s n 1) (length rs)) s u t ground arith
            (ground (arith, same)) (ground (arith, same)) moved rest),
    )

-- The message is begun.
abbrev begun : FlowReads → LinkSender → LinkSender
begun r s = record s {
  tag = s.tag + 1;
  sending = store s.sending r.link (some 0);
  calls = Proton.link_send 4 ∷ Proton.link_send 12 ∷ Proton.delivery_new s.tag ∷ s.calls;
}

begins :
    (r : FlowReads) (link : ℕ) (s : LinkSender)
    → IsReady link r
    → IsFirst r
    → s.sending link ≡ none
    → on_flow r s ≡ on_flow r (begun r s)
unfolding on_flow start_message send_all
begins r link s v f e =
    (ground (arith, v.at, v.up, v.takes 12, v.takes 4, f.some_credit, f.idle, f.new))

-- On a link without a message, where the first flow finds credit and no delivery, all flows find
-- the link up and its delivery writable, and the library takes what it is given, a message with a
-- 32-bit body that is not empty is out after at most as many flows as it has buffers of 32768
-- octets: the batch goes on, the octets sent are the header and the body, the link is advanced
-- once, and no other link is touched.
pub message_out :
    (r : FlowReads) (rs : List FlowReads) (link : ℕ) (s : LinkSender)
    → IsReady link r
    → IsFirst r
    → All (IsReady link) rs
    → 0 < s.body_length
    → s.body_length < 2 ^ 32
    → s.sending link ≡ none
    → s.body_length ≤ (length rs + 1) * tx_buffer_size
    → (t : LinkSender) × (batch (link_flow r ∷ map link_flow rs) s ≡ ok (false, t))
      × (t.sending link ≡ some s.body_length)
      × (sum_of Proton.octets t.calls ≡ 16 + s.body_length + sum_of Proton.octets s.calls)
      × (count_if Proton.is_advance t.calls ≡ suc (count_if Proton.is_advance s.calls))
      × ((k : ℕ) → (k == link) ≡ false → t.sending k ≡ s.sending k)
unfolding batch handle_batch event_handler
message_out r rs link s v f vs positive w e enough =
    let at : (begun r s).sending link ≡ some 0 = (ground (arith, v.at)) in
    let (t, run, moved) = flows_move (r ∷ rs) link 0 (begun r s) (v, vs) w at (omega arith) in
    let all : reach (begun r s) 0 (length (r ∷ rs)) ≡ s.body_length = ground arith in
    let whole = rw all at moved in
    (
      t,
      (rw (begins r link s v f e) run),
      whole.now,
      (omega (arith, whole.octets)),
      (ground (arith, whole.advances)),
      λ k other. whole.others k other ∙ (ground (arith, v.at)),
    )
