-- ===== src/LinkReceiver/Drain.antt =====
-- The loop that takes the octets of a delivery: it ends, and counts them all.
use dispatch_tester.Common.{
  Returns, inl, inr, ℤ-cases, ℕ, zero, suc, ◌+◌, ◌-◌, ◌≤◌, ◌<◌, ◌^◌, ◌≡◌, false, ℤ, pos, u64, ok,
  arith,
}
use dispatch_tester.LinkReceiver.{drain}

-- What the library documents of `pn_link_recv` with octets pending: it takes some of them, or says that
-- there are none to come.
abbrev pub IsRecv : (ℕ → ℤ × ℕ) → Type 0
IsRecv recv =
    (avail : ℕ)
    → 0 < avail
    → (n : ℕ) × ((recv avail).0 ≡ pos n) × (0 < n) × (n ≤ avail) × ((recv avail).1 ≡ avail - n)

-- The weaker contract: it makes progress or fails.
abbrev pub IsProgress : (ℕ → ℤ × ℕ) → Type 0
IsProgress recv = (avail n : ℕ) → 0 < avail → (recv avail).0 ≡ pos n → (recv avail).1 < avail

pub drain_counts :
    (recv : ℕ → ℤ × ℕ) (fuel avail total : ℕ)
    → IsRecv recv
    → avail ≤ fuel
    → total + avail < 2 ^ 64
    → drain recv fuel avail total ≡ ok (false, total + avail)
unfolding drain
drain_counts recv fuel zero total v h w = ground arith
drain_counts recv zero (suc avail) total v h w = absurd (omega arith)
drain_counts recv (suc fuel) (suc avail) total v h w =
    let (n, taken, some_octets, within, left) = v (suc avail) (omega arith) in
    (ground
      (arith, taken, left, within, drain_counts recv fuel (recv (suc avail)).1 (u64 (total + n)) v))

-- Where each read takes octets or fails, the loop ends.
pub drain-total :
    (recv : ℕ → ℤ × ℕ) (fuel avail total : ℕ)
    → IsProgress recv
    → avail ≤ fuel
    → Returns (λ r. Unit) (drain recv fuel avail total)
unfolding drain
drain-total recv fuel zero total v h = ground arith
drain-total recv zero (suc avail) total v h = absurd (omega arith)
drain-total recv (suc fuel) (suc avail) total v h = elim (ℤ-cases (recv (suc avail)).0) [
  | inl (n, e) ↦
      rw (e, drain)
        (drain-total recv fuel (recv (suc avail)).1 (u64 (total + n)) v
          (omega (arith, v (suc avail) n (omega arith) e)))
  | inr (n, e) ↦ rw (e, drain) tt
]
