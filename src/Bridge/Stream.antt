-- ===== src/Bridge/Stream.antt =====
-- What a delivery, and the writing of the raw connection, do to the chunks in the ring.
use mathlib.Core.List.{append-nil, append_assoc}
use dispatch_tester.Common.{
  ℕ, suc, ◌-◌, ◌≤◌, ◌≡◌, refl, ap, sym, ◌∙◌, >>=-eq-ok, Bool, true, false, ◌&&◌, if◌then◌else◌,
  List, [], ◌∷◌, ◌++◌, length, take, Run, ok, result, ◌>>=◌, arith,
}
use dispatch_tester.Bridge.{
  Context, Reads, link_receive, raw_write_drain, wake_raw, finish_delivery, on_wake,
}
use dispatch_tester.Bridge.Ring.{
  Inv, used, chunks_from, queue, advance, used-advance, queue-advance,
}
use dispatch_tester.Bridge.Receive.{link_receive-queue}

-- What the raw connection has written leaves the queue at its front.
drain-out :
    (taken : List ℕ) (s t : Context)
    → Inv s
    → length taken ≤ used s
    → raw_write_drain taken s ≡ ok t
    → Inv t × (queue s ≡ chunks_from s.buffers s.consumer_slot (length taken) ++ queue t)
unfolding raw_write_drain
drain-out [] s t v h e = let same : s ≡ t = cc in ((rw same at v), ap queue same)
drain-out (slot ∷ taken) s t v h e =
    let some_used : used s ≡ suc (used s - 1) = (omega (arith, h)) in
    let (v', q) = queue-advance s (used s - 1) v some_used in
    let fewer = used-advance s (used s - 1) v some_used in
    let run : raw_write_drain taken (advance s) ≡ ok t = ground arith in
    let (vt, qt) = drain-out taken (advance s) t v' (omega (arith, h, fewer)) run in
    (vt, q ∙ ap (λ l. s.buffers s.consumer_slot ∷ l) qt)

-- Two states with the same ring.
pub record Same (s t : Context) : Type 0 where
  pub producer : t.producer_slot ≡ s.producer_slot
  pub consumer : t.consumer_slot ≡ s.consumer_slot
  pub octets : t.buffers ≡ s.buffers

Same-Inv : (s t : Context) → Same s t → Inv s → Inv t
Same-Inv s t m v = ground arith

Same-queue : (s t : Context) → Same s t → queue t ≡ queue s
Same-queue s t m = (rw (m.producer, m.consumer, m.octets) refl)

pub Same-trans : (s u t : Context) → Same s u → Same u t → Same s t
Same-trans s u t m n = record {
  producer = n.producer ∙ m.producer;
  consumer = n.consumer ∙ m.consumer;
  octets = n.octets ∙ m.octets;
}

-- `before` chunks, with those that went in, are those that came out with those that are left.
abbrev pub Flowed : Context → Context → List (List ℕ) → List (List ℕ) → Type 0
Flowed s t out into = Inv t × (queue s ++ into ≡ out ++ queue t)

pub Flowed-Same : (s t : Context) → Same s t → Inv s → Flowed s t [] []
Flowed-Same s t m v = (Same-Inv s t m v, append-nil (queue s) ∙ sym (Same-queue s t m))

pub Flowed-then-Same :
    (s u t : Context) (out into : List (List ℕ))
    → Flowed s u out into
    → Same u t
    → Flowed s t out into
Flowed-then-Same s u t out into (v, q) m =
    (Same-Inv u t m v, q ∙ ap (λ l. out ++ l) (sym (Same-queue u t m)))

pub Flowed-trans :
    (s u t : Context) (o o' i i' : List (List ℕ))
    → Flowed s u o i
    → Flowed u t o' i'
    → Flowed s t (o ++ o') (i ++ i')
Flowed-trans s u t o o' i i' (v, q) (v', q') = (
  v',
  sym (append_assoc (queue s) i i')
      ∙ ap (λ l. l ++ i') q
      ∙ append_assoc o (queue u) i'
      ∙ ap (λ l. o ++ l) q'
      ∙ sym (append_assoc o o' (queue t)),
)

-- What comes out when `raw_write_drain` succeeds.
abbrev pub front : List ℕ → Context → List (List ℕ)
front taken s = chunks_from s.buffers s.consumer_slot (length taken)

-- The ring after the drain of a delivery.
abbrev pub drained : Reads → Context → Run Context
drained r s = if s.raw_conn then raw_write_drain r.taken s else ok s

-- What an event takes out of the ring, and what it puts in.
abbrev pub wake_out : Reads → Context → List (List ℕ)
wake_out r s = if s.amqp_link && (r.pending && s.raw_conn) then front r.taken s else []

abbrev pub wake_in : Reads → Context → List (List ℕ)
wake_in r s =
    if s.amqp_link && r.pending
    then take (link_receive r.chunks (result s (drained r s))).0 r.chunks
    else []

pub Same-of : (s u : Context) → ok s ≡ ok u → Same s u
Same-of s u e = ground arith

pub drained-flow :
    (there : Bool) (taken : List ℕ) (s u : Context)
    → Inv s
    → length taken ≤ used s
    → (if there then raw_write_drain taken s else ok s) ≡ ok u
    → Flowed s u (if there then front taken s else []) []
drained-flow true taken s u v h e =
    let (vu, q) = drain-out taken s u v h e in (vu, append-nil (queue s) ∙ q)
drained-flow false taken s u v h e = Flowed-Same s u (Same-of s u e) v

wake-Same : (n : ℕ) (s u : Context) → ok (wake_raw (n, s)) ≡ ok u → Same s u
unfolding wake_raw
wake-Same n s u e = ground arith

finish-Same : (r : Reads) (s u : Context) → ok (finish_delivery r s) ≡ ok u → Same s u
unfolding finish_delivery
finish-Same r s u e = ground arith

-- `if (pn_delivery_pending(d))` and its body.
received-flow :
    (pending : Bool) (r : Reads) (s u : Context)
    → Inv s
    → length r.taken ≤ used s
    → (if pending then (drained r s >>= λ t. ok (wake_raw (link_receive r.chunks t))) else ok s)
      ≡ ok u
    → Flowed s u
        (if pending && s.raw_conn then front r.taken s else [])
        (if pending then take (link_receive r.chunks (result s (drained r s))).0 r.chunks else [])
received-flow false r s u v h e = Flowed-Same s u (Same-of s u e) v
received-flow true r s u v h e =
    let (t, drain, rest) =
      >>=-eq-ok (drained r s) (λ (t : Context). ok (wake_raw (link_receive r.chunks t))) e in
    let out = drained-flow s.raw_conn r.taken s t v h drain in
    let into : Flowed t (link_receive r.chunks t).1 [] (take (link_receive r.chunks t).0 r.chunks) =
      (let (vt, q) = link_receive-queue r.chunks t out.0 in (vt, sym q)) in
    let after : ℕ × Context = link_receive r.chunks t in
    let out_front = if s.raw_conn then front r.taken s else [] in
    let (vu, q) =
      Flowed-then-Same s after.1 u (out_front ++ []) (take after.0 r.chunks)
        (Flowed-trans s t after.1 out_front [] [] (take after.0 r.chunks) out into)
        (wake-Same after.0 after.1 u rest) in
    (
      vu,
      ap (λ m. queue s ++ take (link_receive r.chunks m).0 r.chunks) (ap (result s) drain)
          ∙ q
          ∙ ap (λ l. l ++ queue u) (append-nil out_front),
    )

-- PN_CONNECTION_WAKE.
woken-flow :
    (link : Bool) (r : Reads) (s u : Context)
    → Inv s
    → length r.taken ≤ used s
    → (if link
        then ((if r.pending
              then (drained r s >>= λ t. ok (wake_raw (link_receive r.chunks t)))
              else ok s)
            >>= λ t. ok (finish_delivery r t))
        else ok s)
      ≡ ok u
    → Flowed s u (if link && (r.pending && s.raw_conn) then front r.taken s else []) (
        if link && r.pending
        then take (link_receive r.chunks (result s (drained r s))).0 r.chunks
        else [])
woken-flow false r s u v h e = Flowed-Same s u (Same-of s u e) v
woken-flow true r s u v h e =
    let (t, received, rest) =
      >>=-eq-ok
        (if r.pending then (drained r s >>= λ t. ok (wake_raw (link_receive r.chunks t))) else ok s)
        (λ (t : Context). ok (finish_delivery r t)) e in
    Flowed-then-Same s t u _ _ (received-flow r.pending r s t v h received) (finish-Same r t u rest)

pub on_wake-flow :
    (r : Reads) (s u : Context)
    → Inv s
    → length r.taken ≤ used s
    → on_wake r s ≡ ok u
    → Flowed s u (wake_out r s) (wake_in r s)
unfolding on_wake
on_wake-flow r s u v h e = woken-flow s.amqp_link r s u v h e
