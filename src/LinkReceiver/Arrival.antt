-- ===== src/LinkReceiver/Arrival.antt =====
-- A message that comes in to the link receiver piece by piece.
use dispatch_tester.Common.{
  ℕ, ◌+◌, ◌<◌, ◌^◌, ◌≡◌, refl, ◌∙◌, Bool, true, false, List, [], ◌∷◌, ◌++◌, map, All, sum_of, u64,
  ok, arith,
}
use dispatch_tester.Proton
use dispatch_tester.Proton.Links.{handle_batch}
use dispatch_tester.LinkReceiver.{
  LinkReceiver, Delivery, Event, delivery, finish, after_drain, on_delivery, event_handler,
}
use dispatch_tester.LinkReceiver.Main.{batch}
use dispatch_tester.LinkReceiver.Drain.{IsRecv, drain_counts}

-- A piece of the message on delivery `id`, of which the library hands out all octets.
pub record IsPiece (id : ℕ) (partial : Bool) (d : Delivery) : Type 0 where
  pub at : d.id ≡ id
  pub more : d.partial ≡ partial
  pub reads : IsRecv d.recv

abbrev pub received_octets : List Delivery → ℕ
received_octets = sum_of (λ (d : Delivery). d.pending)

-- What pieces before the last leave.
record Gathered (id n : ℕ) (s t : LinkReceiver) : Type 0 where
  total : t.totals id ≡ s.totals id + n
  count : t.msg_count ≡ s.msg_count
  calls : t.calls ≡ s.calls

piece_gathers :
    (id : ℕ) (d : Delivery) (s : LinkReceiver)
    → IsPiece id true d
    → s.totals id + d.pending < 2 ^ 64
    → let t = after_drain d s (false, s.totals id + d.pending) in
      (event_handler (delivery d) s ≡ ok (false, t)) × Gathered id d.pending s t
unfolding event_handler on_delivery after_drain
piece_gathers id d s v w =
    let run = drain_counts d.recv d.pending d.pending (s.totals id) v.reads (omega arith) w in
    ((ground (arith, v.at, v.more, run)), (ground (arith, v.at, v.more)))

pieces_gather :
    (id : ℕ) (ds : List Delivery) (es : List Event) (s : LinkReceiver)
    → All (IsPiece id true) ds
    → s.totals id + received_octets ds < 2 ^ 64
    → (t : LinkReceiver) × (batch (map delivery ds ++ es) s ≡ batch es t)
      × Gathered id (received_octets ds) s t
unfolding batch handle_batch
pieces_gather id [] es s v w =
    (s, refl, (record { total = omega arith; count = refl; calls = refl }))
pieces_gather id (d ∷ ds) es s v w =
    let u = after_drain d s (false, s.totals id + d.pending) in
    let (here, one) = piece_gathers id d s v.0 (omega arith) in
    let (t, run, rest) = pieces_gather id ds es u v.1 (omega (arith, w, one.total)) in
    (t, (rw here run), ground (arith, one.total, one.count, one.calls))

last_piece :
    (id : ℕ) (d : Delivery) (s : LinkReceiver)
    → IsPiece id false d
    → s.totals id + d.pending < 2 ^ 64
    → batch (delivery d ∷ []) s ≡ ok (false, finish d s)
unfolding batch handle_batch event_handler on_delivery after_drain
last_piece id d s v w =
    let run = drain_counts d.recv d.pending d.pending (s.totals id) v.reads (omega arith) w in
    (ground (arith, v.at, v.more, run))

-- A message that is handed over whole, in any pieces, is finished once, after the last of them.
pub message_in :
    (id : ℕ) (ds : List Delivery) (d : Delivery) (s : LinkReceiver)
    → All (IsPiece id true) ds
    → IsPiece id false d
    → s.totals id ≡ 0
    → received_octets ds + d.pending < 2 ^ 64
    → (t : LinkReceiver) × (batch (map delivery ds ++ delivery d ∷ []) s ≡ ok (false, t))
      × (t.msg_count ≡ u64 (s.msg_count + 1))
      × (t.totals id ≡ 0)
      × (t.calls
          ≡ Proton.link_flow 1
            ∷ Proton.delivery_settle
            ∷ Proton.delivery_update Proton.accepted
            ∷ s.calls)
unfolding finish
message_in id ds d s vs v new w =
    let (u, run, g) = pieces_gather id ds (delivery d ∷ []) s vs (omega arith) in
    (
      finish d u,
      run ∙ last_piece id d u v (omega (arith, g.total, new, w)),
      (ground (arith, g.count)),
      (ground (arith, v.at)),
      (ground (arith, g.calls)),
    )
