-- ===== src/Scale/Encode.antt =====
-- The encode loop of clients/scale/src/sender.c and punisher.c ends.
use native.Mathlib.Nat.{pow-suc, mul_assoc}
use dispatch_tester.Common.{
  String, Option, none, some, Ends, Returns-Ends, ℕ, zero, suc, ◌*◌, ◌^◌, ◌≤◌, ◌<◌, ◌≡◌, refl, ap,
  ◌⊎◌, inl, inr, u64, Returns, arith,
}
use dispatch_tester.Scale.{
  Builder, build_message, Answer, overflow, encoded, first_size, encode_fuel, encode_message,
}

-- What the library documents of `pn_message_encode`: it overflows only where the message does not fit,
-- and then leaves `len`; a length that it reports lies within the buffer.
pub record IsEncoder (need : ℕ) (encode : ℕ → Answer) : Type 0 where
  pub small : (size left : ℕ) → encode size ≡ overflow left → (size < need) × (left ≡ size)
  pub within : (size len : ℕ) → encode size ≡ encoded len → len ≤ size

Answer-cases : (a : Answer) → ((n : ℕ) × (a ≡ overflow n)) ⊎ ((n : ℕ) × (a ≡ encoded n))
Answer-cases (overflow n) = inl (n, refl)
Answer-cases (encoded n) = inr (n, refl)

-- The result has a length within its buffer.
abbrev pub Fits : ℕ × ℕ → Type 0
Fits r = r.1 ≤ r.0

module _ {need : ℕ} {encode : ℕ → Answer} (law : IsEncoder need encode)
    (limit : need ≤ 2 ^ 63) where
  encode_message-Returns :
      (fuel size : ℕ)
      → need ≤ size * 2 ^ fuel
      → Returns Fits (encode_message encode (suc fuel) size)
  unfolding encode_message
  encode_message-Returns zero size h = elim (Answer-cases (encode size)) [
    | inl (left, e) ↦ absurd (omega (arith, (law.small size left e).0))
    | inr (len, e) ↦ rw (e, encode_message) (law.within size len e)
  ]
  encode_message-Returns (suc fuel) size h = elim (Answer-cases (encode size)) [
    | inl (left, e) ↦
        let (below, kept) = law.small size left e in
        let wide : u64 (left * 2) ≡ size * 2 = (omega (arith, kept, below)) in
        rw (e, encode_message)
          (encode_message-Returns fuel (u64 (left * 2))
            (rw (wide, mul_assoc) (omega (arith, ap (λ (t : ℕ). size * t) (pow-suc 2 fuel)))))
    | inr (len, e) ↦ rw (e, encode_message) (law.within size len e)
  ]

  -- With an encoder that overflows only below a size of at most 2^63, leaves the size then and
  -- reports a length within the buffer otherwise, the encode loop of the scale clients ends from
  -- 128 octets on within 57 rounds, with a length within its buffer.
  pub encode_message-total : Returns Fits (encode_message encode encode_fuel first_size)
  encode_message-total = (encode_message-Returns 56 first_size (omega arith))

-- The message is built, or the process ends.
pub build_message-Fits :
    (b : Builder) (target : String) (operand : Option String) (need : String → String → ℕ)
    → ((text : String) → IsEncoder (need target text) (b.encode target text))
    → ((text : String) → need target text ≤ 2 ^ 63)
    → Ends Fits (build_message b target operand)
unfolding build_message
build_message-Fits b target none need law small =
    (ground (
      arith,
      Returns-Ends Fits (encode_message (b.encode target "Hello World!") encode_fuel first_size)
          (encode_message-total (law "Hello World!") (small "Hello World!")),
    ))
build_message-Fits b target (some t) need law small =
    (ground (
      arith,
      Returns-Ends Fits (encode_message (b.encode target t) encode_fuel first_size)
          (encode_message-total (law t) (small t)),
    ))
