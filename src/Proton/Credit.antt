-- ===== src/Proton/Credit.antt =====
-- The credit rule that the receivers share: benchmarks/clients/src/receiver.c and
-- throughput-receiver.c each have their own copy.
use dispatch_tester.Common.{
  ℕ, ◌+◌, ◌-◌, ◌/◌, ◌≤◌, ◌<◌, ◌≡◌, List, ◌∷◌, if◌then◌else◌, ltb, leb, ◌==◌, not, ◌&&◌, sum_of,
  count_if, arith,
}
use dispatch_tester.Proton.{Call, link_flow, credits, is_settle, is_accept}

-- `else if (pn_link_credit(pn_link) <= credit_window/2)` and its body. The grant that is computed only
-- decides whether credit is given.
unfoldable pub replenish : ℕ → ℕ → ℕ → ℕ → List Call → List Call
replenish window limit count credit calls =
    let full : ℕ = window - credit in
    let grant : ℕ = if not (limit == 0) && ltb (limit - count) full then limit - count else full in
    if leb credit (window / 2)
    then (if grant == 0 then calls else link_flow full ∷ calls)
    else calls

-- With a window that is not empty, the credit within it, the count below the limit if there is
-- one, and as much granted as was used up and is left, what is granted in all stays within a
-- window of what has arrived, and more than half a window of credit is left.
pub replenish_window :
    (window limit count credit : ℕ) (calls : List Call)
    → 0 < window
    → credit ≤ window
    → (0 < limit → count < limit)
    → credit + count ≡ sum_of credits calls
    → let granted = sum_of credits (replenish window limit count credit calls) in
      (granted ≤ count + window) × (count + window / 2 < granted)
unfolding replenish
replenish_window window limit count credit calls w c l e = ground arith

-- Only credit is added.
pub replenish_counts :
    (window limit count credit : ℕ) (calls : List Call)
    → (count_if is_settle (replenish window limit count credit calls) ≡ count_if is_settle calls)
      × (count_if is_accept (replenish window limit count credit calls) ≡ count_if is_accept calls)
unfolding replenish
replenish_counts window limit count credit calls = ground arith

-- With at most half of a window that is not empty left and the count below the limit, the credit
-- is filled up to the whole window, also where fewer messages are wanted.
replenish_full :
    (window limit count credit : ℕ) (calls : List Call)
    → 0 < window
    → credit ≤ window / 2
    → count < limit
    → replenish window limit count credit calls ≡ link_flow (window - credit) ∷ calls
unfolding replenish
replenish_full window limit count credit calls w h l = ground arith
