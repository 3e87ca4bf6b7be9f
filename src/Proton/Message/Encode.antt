-- ===== src/Proton/Message/Encode.antt =====
-- The encode loop of benchmarks/clients/src/sender.c (and its copies): it ends, and what it returns
-- fits the buffer.
use native.Mathlib.Decide.{dec_le}
use native.Mathlib.Nat.{pow-suc, mul_assoc}
use dispatch_tester.Common.{
  ℕ, zero, suc, ◌*◌, ◌^◌, ◌≤◌, ◌<◌, ◌≡◌, refl, ap, ◌≢◌, ◌⊎◌, inl, inr, u64, Ends, Returns, arith,
}
use dispatch_tester.Proton.Message.{Encoded, overflow, failed, encoded, encode_loop, encode_fuel}

-- What the library documents of `pn_message_encode`: a buffer of `need` octets is enough, and the
-- length that it reports lies within the buffer.
pub record IsEncoder (need : ℕ) (enc : ℕ → Encoded) : Type 0 where
  pub enough : (size : ℕ) → need ≤ size → enc size ≢ overflow
  pub within : (size len : ℕ) → enc size ≡ encoded len → len ≤ size

Encoded-cases : (r : Encoded) → (r ≡ overflow) ⊎ ((r ≡ failed) ⊎ ((len : ℕ) × (r ≡ encoded len)))
Encoded-cases overflow = inl refl
Encoded-cases failed = inr (inl refl)
Encoded-cases (encoded len) = inr (inr (len, refl))

-- Doubling a size below `need` does not wrap, so each round halves what is missing.
module _ {need : ℕ} {enc : ℕ → Encoded} (law : IsEncoder need enc) (small : need ≤ 2 ^ 63) where
  no_wrap : (size : ℕ) → enc size ≡ overflow → u64 (size * 2) ≡ size * 2
  no_wrap size e = elim (dec_le need size) [
    | yes p ↦ absurd (law.enough size p e)
    | no p ↦ omega arith
  ]

  doubled :
      (fuel size : ℕ)
      → need ≤ size * 2 ^ suc fuel
      → enc size ≡ overflow
      → need ≤ u64 (size * 2) * 2 ^ fuel
  doubled fuel size h e =
      rw (no_wrap size e, mul_assoc) (omega (arith, ap (λ (t : ℕ). size * t) (pow-suc 2 fuel)))

  pub encode_loop-Ends :
      (fuel size : ℕ)
      → 0 < size
      → need ≤ size * 2 ^ fuel
      → Ends (λ (r : ℕ × ℕ). (0 < r.0) × (r.1 ≤ r.0)) (encode_loop enc (suc fuel) size)
  unfolding encode_loop
  encode_loop-Ends zero size z h = elim (Encoded-cases (enc size)) [
    | inl e ↦ absurd (law.enough size (omega arith) e)
    | inr (inl e) ↦ rw (e, encode_loop) tt
    | inr (inr (len, e)) ↦ rw (e, encode_loop) (z, law.within size len e)
  ]
  encode_loop-Ends (suc fuel) size z h = elim (Encoded-cases (enc size)) [
    | inl e ↦
        rw (e, encode_loop)
          (encode_loop-Ends fuel (u64 (size * 2)) (omega (arith, no_wrap size e))
            (doubled fuel size h e))
    | inr (inl e) ↦ rw (e, encode_loop) tt
    | inr (inr (len, e)) ↦ rw (e, encode_loop) (z, law.within size len e)
  ]

  -- From a buffer that is not empty, with an encoder that fits any message of up to 2^63 octets
  -- into a buffer of that size, the encode loop ends within 64 rounds, and a result fits the
  -- buffer.
  pub encode_loop-total :
      (size : ℕ)
      → 0 < size
      → Ends (λ (r : ℕ × ℕ). (0 < r.0) × (r.1 ≤ r.0)) (encode_loop enc encode_fuel size)
  encode_loop-total size z = encode_loop-Ends 63 size z (omega arith)

-- Where the encoder makes no other error, and no message is longer than `need`, a loop that ends
-- returns.
pub encode_loop-Returns :
    (need : ℕ) (enc : ℕ → Encoded) (fuel size : ℕ)
    → ((n : ℕ) → enc n ≢ failed)
    → ((n len : ℕ) → enc n ≡ encoded len → len ≤ need)
    → Ends (λ (r : ℕ × ℕ). (0 < r.0) × (r.1 ≤ r.0)) (encode_loop enc fuel size)
    → Returns (λ (r : ℕ × ℕ). (0 < r.0) × (r.1 ≤ need)) (encode_loop enc fuel size)
unfolding encode_loop
encode_loop-Returns need enc zero size good short ends = absurd ends
encode_loop-Returns need enc (suc fuel) size good short ends = elim (Encoded-cases (enc size)) [
  | inl e ↦
      let rest = rw (e, encode_loop) at ends in
      rw (e, encode_loop) (encode_loop-Returns need enc fuel (u64 (size * 2)) good short rest)
  | inr (inl e) ↦ absurd (good size e)
  | inr (inr (len, e)) ↦
      let found = rw (e, encode_loop) at ends in rw (e, encode_loop) (found.0, short size len e)
]
