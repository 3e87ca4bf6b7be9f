-- ===== src/Sender/Flow.antt =====
-- What a grant of credit makes the benchmark sender do.
use dispatch_tester.Common.{ℕ, ◌+◌, ◌*◌, ◌<◌, ◌≡◌, ◌⊎◌, sum_of}
use dispatch_tester.Proton.Message.{Message}
use dispatch_tester.Proton
use dispatch_tester.Sender.{Sender, next_delivery, write_out}

-- One round without time stamps.
abbrev round : Sender → Sender
round s = write_out (next_delivery s)

-- The state and the credit that a loop over `credit` ends with.
abbrev pub Exact : ℕ → Sender → ℕ → Sender → Type 0
Exact credit s left t =
    (t.count + left ≡ s.count + credit)
    × (t.limit ≡ s.limit)
    × ((left ≡ 0) ⊎ ((0 < t.limit) × (t.count ≡ t.limit)))
    × (sum_of Proton.octets t.calls + s.count * s.encoded_data_size
        ≡ sum_of Proton.octets s.calls + t.count * s.encoded_data_size)
