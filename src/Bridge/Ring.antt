-- ===== src/Bridge/Ring.antt =====
-- The ring of the bridge as a queue of chunks.
use native.Mathlib.Numerals.{add-one}
use dispatch_tester.Common.{
  ℕ, zero, suc, ◌+◌, ◌-◌, ◌%◌, ◌≤◌, ◌<◌, ◌≡◌, refl, false, if◌then◌else◌, ◌==◌, List, [], ◌∷◌, ◌++◌,
  drop, ok, ap, sym, ◌∙◌, arith,
}
use dispatch_tester.Bridge.{
  Context, slot_count, next_slot, slots_full, slots_empty, put, raw_write_drain,
}

pub record Inv (s : Context) : Type 0 where
  pub producer : s.producer_slot < slot_count
  pub consumer : s.consumer_slot < slot_count

-- How many slots are in use.
abbrev pub used : Context → ℕ
used s = (s.producer_slot + slot_count - s.consumer_slot) % slot_count

-- The chunks of `n` slots from `slot` on.
abbrev pub chunks_from : (ℕ → List ℕ) → ℕ → ℕ → List (List ℕ)
chunks_from buffers slot zero = []
chunks_from buffers slot (suc n) = buffers slot ∷ chunks_from buffers (next_slot slot) n

-- The queue that the ring stands for.
abbrev pub queue : Context → List (List ℕ)
queue s = chunks_from s.buffers s.consumer_slot (used s)

-- The slot that lies `n` behind.
abbrev slot_at : ℕ → ℕ → ℕ
slot_at slot n = (slot + n) % slot_count

-- A write to a slot beyond the chunks adds it at their end.
chunks_from-put :
    (buffers : ℕ → List ℕ) (chunk : List ℕ) (slot n p : ℕ)
    → slot < slot_count
    → n < slot_count
    → p ≡ slot_at slot n
    → chunks_from (λ k. if k == p then chunk else buffers k) slot (suc n)
      ≡ chunks_from buffers slot n ++ chunk ∷ []
unfolding next_slot
chunks_from-put buffers chunk slot zero p h l e = ground arith
chunks_from-put buffers chunk slot (suc n) p h l e =
    (ground (arith, chunks_from-put buffers chunk ((slot + 1) % slot_count) n p))

-- On a ring whose slots are in range, the test for a full ring holds exactly if 127 slots are in
-- use.
pub slots_full_iff : (s : Context) → Inv s → slots_full s ≡ (used s == 127)
unfolding slots_full
slots_full_iff s v = ground arith

pub slots_empty_iff : (s : Context) → Inv s → slots_empty s ≡ (used s == 0)
unfolding slots_empty
slots_empty_iff s v = ground arith

used-put : (chunk : List ℕ) (s : Context) → Inv s → used s < 127 → used (put chunk s) ≡ used s + 1
unfolding put
used-put chunk s v h = ground arith

-- Putting a chunk into a ring that is not full, with its slots in range, appends it to the queue
-- and keeps the slots in range.
pub queue-put :
    (chunk : List ℕ) (s : Context)
    → Inv s
    → slots_full s ≡ false
    → Inv (put chunk s) × (queue (put chunk s) ≡ queue s ++ chunk ∷ [])
queue-put chunk s v h = (
  (unfold put next_slot in ground arith),
  rw (used-put chunk s v room, add-one)
      (unfold put in
        chunks_from-put s.buffers chunk s.consumer_slot (used s) s.producer_slot v.consumer
          (omega (arith, room)) (omega (arith, v.producer, v.consumer))),
)
  where
    room : used s < 127
    room = (ground (arith, slots_full_iff s v))

-- The oldest chunk leaves.
abbrev pub advance : Context → Context
advance s = record s { consumer_slot = next_slot s.consumer_slot }

pub used-advance : (s : Context) (n : ℕ) → Inv s → used s ≡ suc n → used (advance s) ≡ n
unfolding next_slot
used-advance s n v e = ground arith

pub queue-advance :
    (s : Context) (n : ℕ)
    → Inv s
    → used s ≡ suc n
    → Inv (advance s) × (queue s ≡ s.buffers s.consumer_slot ∷ queue (advance s))
unfolding next_slot
queue-advance s n v e = (
  ground arith,
  ap (chunks_from s.buffers s.consumer_slot) e
      ∙ ap (λ k. s.buffers s.consumer_slot ∷ chunks_from s.buffers (next_slot s.consumer_slot) k)
          (sym (used-advance s n v e)),
)

-- The slots of the `n` oldest chunks.
abbrev pub slots_from : ℕ → ℕ → List ℕ
slots_from slot zero = []
slots_from slot (suc n) = slot ∷ slots_from (next_slot slot) n

-- On a ring whose slots are in range, when the raw connection returns some of the oldest buffers
-- in their order, `raw_write_drain` returns, the slots stay in range, and those chunks leave the
-- queue.
pub raw_write_drain-queue :
    (n : ℕ) (s : Context)
    → Inv s
    → n ≤ used s
    → (t : Context) × (raw_write_drain (slots_from s.consumer_slot n) s ≡ ok t)
      × Inv t
      × (used t + n ≡ used s)
      × (queue t ≡ drop n (queue s))
unfolding raw_write_drain
raw_write_drain-queue zero s v h = (s, refl, v, omega arith, refl)
raw_write_drain-queue (suc n) s v h =
    let e : used s ≡ suc (used s - 1) = omega arith in
    let (v', q) = queue-advance s (used s - 1) v e in
    let fewer = used-advance s (used s - 1) v e in
    let (t, run, vt, ut, qt) = raw_write_drain-queue n (advance s) v' (omega arith) in
    (t, (ground (arith, run)), vt, omega arith, rw q qt)
