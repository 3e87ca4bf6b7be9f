-- ===== src/Proton/Decimal.antt =====
-- A concrete `sscanf` for the examples: decimal digits, as far as they fit the type.
use dispatch_tester.Common.{
  ℕ, ◌+◌, ◌-◌, ◌*◌, ◌^◌, ◌<◌, ◌&&◌, if◌then◌else◌, ltb, leb, Option, none, some, List, [], ◌∷◌, ℤ,
  pos, arith,
}
use dispatch_tester.Proton.Options.{Scanf, IsScanf, IfSome, text_octets}

unfoldable pub digits : List ℕ → ℕ → Option ℕ
digits [] n = some n
digits (c ∷ cs) n =
    let rest : Option ℕ = digits cs (n * 10 + (c - 48)) in
    if leb 48 c && ltb c 58 then rest else none

abbrev pub fit : ℕ → Option ℕ → Option ℕ
fit limit none = none
fit limit (some n) = if ltb n limit then some n else none

abbrev pub signed : Option ℕ → Option ℤ
signed none = none
signed (some n) = some (pos n)

abbrev pub scan : Scanf
scan = record {
  scan_u64 = λ text. fit (2 ^ 64) (digits (text_octets text) 0);
  scan_u32 = λ text. fit (2 ^ 32) (digits (text_octets text) 0);
  scan_u8 = λ text. fit (2 ^ 8) (digits (text_octets text) 0);
  scan_int = λ text. signed (fit (2 ^ 31) (digits (text_octets text) 0));
}

fit-bound : (limit : ℕ) (o : Option ℕ) → IfSome (λ n. n < limit) (fit limit o)
fit-bound limit none = tt
fit-bound limit (some n) = ground arith

pub scan-IsScanf : IsScanf scan
scan-IsScanf = record {
  u64_word = λ text. fit-bound (2 ^ 64) (digits (text_octets text) 0);
  u32_word = λ text. fit-bound (2 ^ 32) (digits (text_octets text) 0);
}
