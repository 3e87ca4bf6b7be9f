-- ===== src/Server/Accounts.antt =====
-- The accounts of the server: what it sends and what it accepts, in every run of the program.
use dispatch_tester.Common.{
  ℕ, zero, suc, ◌+◌, ◌*◌, ◌≤◌, ◌<◌, ◌≡◌, Bool, false, [], count_if, sum_of, u64, refl, halt,
  out_of_fuel, Returns, Bool-cases, inl, inr, arith,
}
use dispatch_tester.Proton
use dispatch_tester.Server.{Server, LinkCall, Event, delivery, receive_loop}

abbrev pub tally : (Proton.Call → Bool) → Server → ℕ
tally p s = count_if (λ (c : LinkCall). p c.call) s.link_calls

abbrev pub octets : Server → ℕ
octets s = sum_of (λ (c : LinkCall). Proton.octets c.call) s.link_calls

-- Each message sent has its delivery, its octets and its advance, and each accepted is counted.
pub record Inv (s : Server) : Type 0 where
  pub tags : tally Proton.is_delivery s ≡ s.tag
  pub sends : tally Proton.is_send s ≡ s.tag
  pub advances : tally Proton.is_advance s ≡ s.tag
  pub size : octets s ≡ s.tag * s.encoded_data_size
  pub accepts : u64 (tally Proton.is_accept s) ≡ s.rx_count

-- What a round of the send loop adds.
record Sent (s t : Server) : Type 0 where
  tags : t.tag ≡ s.tag + 1
  kept : t.encoded_data_size ≡ s.encoded_data_size
  counted : t.rx_count ≡ s.rx_count
  deliveries : tally Proton.is_delivery t ≡ tally Proton.is_delivery s + 1
  sends : tally Proton.is_send t ≡ tally Proton.is_send s + 1
  advances : tally Proton.is_advance t ≡ tally Proton.is_advance s + 1
  accepts : tally Proton.is_accept t ≡ tally Proton.is_accept s
  size : octets t ≡ octets s + s.encoded_data_size

-- The octets of a full delivery come in, or PN_EOS does.
abbrev pub IsReading : (ℕ → Bool × ℕ) → Type 0
IsReading recv = (pending : ℕ) → 0 < pending → (recv pending).0 ≡ false → (recv pending).1 < pending

pub receive_loop-total :
    (recv : ℕ → Bool × ℕ) (fuel pending : ℕ)
    → IsReading recv
    → pending ≤ fuel
    → Returns (λ left. Unit) (receive_loop recv fuel pending)
unfolding receive_loop
receive_loop-total recv fuel zero r h = tt
receive_loop-total recv zero (suc pending) r h = absurd (omega arith)
receive_loop-total recv (suc fuel) (suc pending) r h = elim (Bool-cases (recv (suc pending)).0) [
  | inl e ↦ rw (e, receive_loop) tt
  | inr e ↦
      rw (e, receive_loop)
        (receive_loop-total recv fuel (recv (suc pending)).1 r
          (omega (arith, r (suc pending) (omega arith) e)))
]

-- Where a read fails with a code other than PN_EOS, and leaves the octets pending, no amount of rounds
-- ends the loop.
receive_loop_stuck :
    (recv : ℕ → Bool × ℕ) (pending fuel : ℕ)
    → 0 < pending
    → (recv pending).0 ≡ false
    → (recv pending).1 ≡ pending
    → receive_loop recv fuel pending ≡ halt out_of_fuel
unfolding receive_loop
receive_loop_stuck recv zero fuel positive e same = absurd (omega arith)
receive_loop_stuck recv (suc pending) zero positive e same = refl
receive_loop_stuck recv (suc pending) (suc fuel) positive e same =
    rw (e, receive_loop, same) (receive_loop_stuck recv (suc pending) fuel positive e same)

-- A delivery whose octets come in.
abbrev pub IsServed : Event → Type 0
IsServed (delivery d) = IsReading d.recv
IsServed _ = Unit

-- Nothing has been sent or received, and a window is asked for.
record IsFresh (s : Server) : Type 0 where
  no_tag : s.tag ≡ 0
  none_counted : s.rx_count ≡ 0
  no_calls : s.link_calls ≡ []
  no_buffer : s.encode_buffer ≡ false
