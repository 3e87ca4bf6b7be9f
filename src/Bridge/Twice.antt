-- ===== src/Bridge/Twice.antt =====
-- `raw_send` starts at the consumer's slot each time, and that slot only moves when the raw connection
-- has written it: what is still being written is handed over again.
use mathlib.Core.List.{append_assoc}
use dispatch_tester.Common.{
  Bool-cases, inl, inr, ◌==◌, ℕ, zero, suc, ◌≡◌, refl, sym, ◌∙◌, false, List, [], ◌∷◌, ◌++◌, length,
  arith,
}
use dispatch_tester.Proton
use dispatch_tester.Bridge.{slots_empty, Context, next_slot, emit, send_slots, raw_send}

-- Sending records the writes and leaves the ring.
pub raw_send_ring :
    (avail slot : ℕ) (s : Context)
    → let t = send_slots avail slot s in
      (t.producer_slot ≡ s.producer_slot)
      × (t.consumer_slot ≡ s.consumer_slot)
      × (t.buffers ≡ s.buffers)
unfolding send_slots
raw_send_ring zero slot s = (refl, refl, refl)
raw_send_ring (suc avail) slot s =
    (ground (
      arith,
      raw_send_ring avail (next_slot slot)
          (emit (Proton.raw_write slot (length (s.buffers slot))) s),
    ))

-- What has been handed over stays in the record.
written_slots-send_slots :
    (avail slot : ℕ) (s : Context)
    → (later : List ℕ) × (Proton.written_slots (send_slots avail slot s).calls
        ≡ later ++ Proton.written_slots s.calls)
unfolding send_slots
written_slots-send_slots zero slot s = ([], refl)
written_slots-send_slots (suc avail) slot s = elim (Bool-cases (slot == s.producer_slot)) [
  | inl last ↦ rw last ([], refl)
  | inr more ↦
      let (later, e) =
        written_slots-send_slots avail (next_slot slot)
          (emit (Proton.raw_write slot (length (s.buffers slot))) s) in
      rw more (
        later ++ slot ∷ [],
        e ∙ sym (append_assoc later (slot ∷ []) (Proton.written_slots s.calls)),
      )
]

-- The first slot that is handed over is the consumer's, if there is anything to write.
written_slots-raw_send :
    (avail : ℕ) (s : Context)
    → slots_empty s ≡ false
    → (later : List ℕ) × (Proton.written_slots (raw_send (suc avail) s).calls
        ≡ later ++ s.consumer_slot ∷ Proton.written_slots s.calls)
unfolding raw_send send_slots slots_empty
written_slots-raw_send avail s h =
    let more : (s.consumer_slot == s.producer_slot) ≡ false = ground arith in
    rw more (
      written_slots-send_slots avail (next_slot s.consumer_slot)
        (emit (Proton.raw_write s.consumer_slot (length (s.buffers s.consumer_slot))) s))

raw_send-not_empty :
    (avail : ℕ) (s : Context) → slots_empty s ≡ false → slots_empty (raw_send avail s) ≡ false
unfolding slots_empty raw_send
raw_send-not_empty avail s h =
    let (p, c, b) = raw_send_ring avail s.consumer_slot s in (rw (p, c) h)

raw_send-consumer_slot :
    (avail : ℕ) (s : Context) → (raw_send avail s).consumer_slot ≡ s.consumer_slot
unfolding raw_send
raw_send-consumer_slot avail s = (raw_send_ring avail s.consumer_slot s).1

-- When `raw_send` runs twice on a ring with data, each time with room for a buffer or more in the
-- raw connection, and nothing was drained in between, it hands the consumer's slot to the raw
-- connection two times.
pub raw_send-twice :
    (first second : ℕ) (s : Context)
    → slots_empty s ≡ false
    → (later : List ℕ) × (between : List ℕ) × (Proton.written_slots
          (raw_send (suc second) (raw_send (suc first) s)).calls
        ≡ later ++ s.consumer_slot ∷ (between ++ s.consumer_slot ∷ Proton.written_slots s.calls))
raw_send-twice first second s h =
    let (between, e) = written_slots-raw_send first s h in
    let (later, e') =
      written_slots-raw_send second (raw_send (suc first) s) (raw_send-not_empty (suc first) s h) in
    (later, between, (e' ∙ rw (raw_send-consumer_slot (suc first) s, e) refl))
