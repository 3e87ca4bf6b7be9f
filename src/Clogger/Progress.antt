-- ===== src/Clogger/Progress.antt =====
-- How long the clogger takes for a message: one chunk for each wake-up.
use native.Mathlib.Decide.{dec_lt, dec_le}
use dispatch_tester.Common.{
  sum_of, count_if, ◌-◌, ℕ, zero, suc, ◌+◌, ◌*◌, ◌≤◌, ◌<◌, ◌^◌, ◌≡◌, Bool, true, false, u32, ℤ, ◌∷◌,
  Run, ok, ◌>>=◌, arith,
}
use dispatch_tester.Proton
use dispatch_tester.Clogger.{
  Clogger, default_max_frame, min_of, chunk_size, finish_message, send_message_data,
}
use dispatch_tester.Clogger.Framing.{Accepts}

-- The most that one chunk can hold.
abbrev pub frame_size : Clogger → ℕ
frame_size s = min_of s.remote_max_frame default_max_frame

abbrev pub with_chunk : Clogger → Clogger
with_chunk s = record s {
  bytes_sent = u32 (s.bytes_sent + chunk_size s);
  calls = Proton.link_send (chunk_size s) ∷ s.calls;
}

-- `k` wake-ups, until the message is out.
pub wake_ups : (ℕ → ℤ) → ℕ → Clogger → Run (Bool × Clogger)
wake_ups rc zero s = ok (false, s)
wake_ups rc (suc k) s =
    send_message_data rc s >>= λ r. elim r.0 [ true ↦ ok r | false ↦ wake_ups rc k r.1 ]

-- What holds once the last `n` octets of a body are out: exactly these were written, the delivery was
-- completed once, and none is left.
pub record Out (n : ℕ) (s t : Clogger) : Type 0 where
  pub free : t.pn_dlv ≡ false
  pub octets : sum_of Proton.octets t.calls ≡ n + sum_of Proton.octets s.calls
  pub advances : count_if Proton.is_advance t.calls ≡ count_if Proton.is_advance s.calls + 1
  pub deliveries : count_if Proton.is_delivery t.calls ≡ count_if Proton.is_delivery s.calls

finished :
    (s : Clogger)
    → s.bytes_sent ≡ s.body_length
    → (finish_message s ≡ (true, (finish_message s).1)) × Out 0 s (finish_message s).1
unfolding finish_message
finished s h = ground arith

module _ (rc : ℕ → ℤ) (law : Accepts rc) where
  last_chunk :
      (s : Clogger)
      → s.pn_dlv ≡ true
      → s.body_length < 2 ^ 32
      → s.bytes_sent ≤ s.body_length
      → s.body_length ≤ s.bytes_sent + frame_size s
      → (t : Clogger) × (send_message_data rc s ≡ ok (true, t))
        × Out (s.body_length - s.bytes_sent) s t
  unfolding send_message_data chunk_size
  last_chunk s d w h l = elim (dec_lt s.bytes_sent s.body_length) [
    | yes p ↦
        let (out, free) = finished (with_chunk s) ground arith in
        (
          (finish_message (with_chunk s)).1,
          (ground (arith, law (chunk_size s), out)),
          (ground (arith, free)),
        )
    | no p ↦
        let (out, free) = finished s (omega arith) in
        ((finish_message s).1, (ground (arith, out)), (ground (arith, free)))
  ]

  other_chunk :
      (s : Clogger)
      → s.pn_dlv ≡ true
      → s.body_length < 2 ^ 32
      → s.bytes_sent + frame_size s < s.body_length
      → send_message_data rc s
        ≡ ok (
          false,
          record s {
            bytes_sent = s.bytes_sent + frame_size s;
            calls = Proton.link_send (frame_size s) ∷ s.calls;
          },
        )
  unfolding send_message_data finish_message chunk_size
  other_chunk s d w h = (ground (arith, law (frame_size s), law (chunk_size s)))

  -- With a library that takes what it is given, a message in the making with a 32-bit length whose
  -- rest fits `k + 1` frames is out after at most that many wake-ups: exactly the octets that were
  -- left of its body are written, the delivery is completed once, no other is begun, and none is
  -- left.
  pub wake_ups_complete :
      (k : ℕ) (s : Clogger)
      → s.pn_dlv ≡ true
      → s.body_length < 2 ^ 32
      → s.bytes_sent ≤ s.body_length
      → s.body_length ≤ s.bytes_sent + (k + 1) * frame_size s
      → (t : Clogger) × (wake_ups rc (suc k) s ≡ ok (true, t))
        × Out (s.body_length - s.bytes_sent) s t
  unfolding wake_ups
  wake_ups_complete zero s d w h l =
      let (t, out, free) = last_chunk s d w h omega arith in (t, (ground (arith, out)), free)
  wake_ups_complete (suc k) s d w h l = elim (dec_le s.body_length (s.bytes_sent + frame_size s)) [
    | yes p ↦ let (t, out, free) = last_chunk s d w h p in (t, (ground (arith, out)), free)
    | no p ↦
        let more = other_chunk s d w omega arith in
        let (t, out, free) =
          wake_ups_complete k
            (record s {
              bytes_sent = s.bytes_sent + frame_size s;
              calls = Proton.link_send (frame_size s) ∷ s.calls;
            })
            d w omega arith omega arith in
        (t, (ground (arith, more, out)), (ground (arith, free)))
  ]
