-- ===== src/Bridge/Receive.antt =====
-- What a delivery's octets do to the ring: nothing is lost, reordered or overwritten.
use mathlib.Core.List.{append-nil, append_assoc}
use native.Mathlib.Numerals.{add-one}
use dispatch_tester.Common.{
  ap, ℕ, ◌+◌, ◌≡◌, sym, ◌∙◌, Bool-cases, inl, inr, List, [], ◌∷◌, ◌++◌, take,
}
use dispatch_tester.Bridge.{Context, slots_full, put, link_receive}
use dispatch_tester.Bridge.Ring.{Inv, queue, queue-put}

-- One more chunk at the front of those that follow.
take-one_more :
    (before after : List (List ℕ)) (chunk : List ℕ) (n : ℕ) (chunks : List (List ℕ))
    → after ≡ (before ++ chunk ∷ []) ++ take n chunks
    → after ≡ before ++ take (n + 1) (chunk ∷ chunks)
take-one_more before after chunk n chunks e =
    rw add-one (e ∙ append_assoc before (chunk ∷ []) (take n chunks))

-- On a ring whose slots are in range, they stay so, and the chunks that `link_receive` takes are
-- appended to the queue in their order, nothing is overwritten, and their number is its result.
pub link_receive-queue :
    (chunks : List (List ℕ)) (s : Context)
    → Inv s
    → let (written, t) = link_receive chunks s in Inv t × (queue t ≡ queue s ++ take written chunks)
unfolding link_receive
link_receive-queue [] s v = (v, sym (append-nil (queue s)))
link_receive-queue ([] ∷ chunks) s v = (v, sym (append-nil (queue s)))
link_receive-queue ((x ∷ xs) ∷ chunks) s v = elim (Bool-cases (slots_full s)) [
  | inl full ↦ rw full (v, sym (append-nil (queue s)))
  | inr room ↦
      let (v', q) = queue-put (x ∷ xs) s v room in
      let (vt, qt) = link_receive-queue chunks (put (x ∷ xs) s) v' in
      let after = qt ∙ ap (λ l. l ++ take (link_receive chunks (put (x ∷ xs) s)).0 chunks) q in
      rw room (
        vt,
        take-one_more (queue s) (queue (link_receive chunks (put (x ∷ xs) s)).1) (x ∷ xs)
            (link_receive chunks (put (x ∷ xs) s)).0 chunks after,
      )
]
