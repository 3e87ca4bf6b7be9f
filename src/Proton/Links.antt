-- ===== src/Proton/Links.antt =====
-- What the clients that open a set of links have in common: the loops that open them, and the loop over
-- the events of a batch. skupper-router/clients/amqp_link_scale/ has one of each kind of link.
use dispatch_tester.Common.{
  Returns, Returns-bind, All, ℕ, zero, suc, ◌+◌, ◌*◌, ◌≡◌, refl, String, Bool, true, false, List,
  [], ◌∷◌, count_if, sum_of, Run, ok, Ends, Ends-bind, ◌>>=◌, arith,
}
use dispatch_tester.Proton.{
  Call, Disposition, received, sender_new, receiver_new, set_source, set_target, link_open,
  link_flow, credits, octets, is_link_open, is_settle, is_accept, is_link_close, is_delivery,
}

-- A state that ends a delivery.
abbrev pub IsTerminal : Disposition → Type 0
IsTerminal received = ⊥
IsTerminal _ = Unit

-- `n` sending links.
unfoldable pub open_senders : ℕ → String → List Call → List Call
open_senders zero target calls = calls
open_senders (suc n) target calls =
    open_senders n target (link_open ∷ set_target target ∷ sender_new ∷ calls)

-- `n` receiving links, with credit.
unfoldable pub open_receivers : ℕ → String → ℕ → List Call → List Call
open_receivers zero source credit calls = calls
open_receivers (suc n) source credit calls =
    open_receivers n source credit
      (link_flow credit ∷ link_open ∷ set_source source ∷ receiver_new ∷ calls)

-- The calls that count for an account are not among those that open a sender.
pub open_senders-counts :
    (n : ℕ) (target : String) (calls : List Call)
    → let opened = open_senders n target calls in
      (count_if is_link_open opened ≡ n + count_if is_link_open calls)
      × (sum_of octets opened ≡ sum_of octets calls)
      × (count_if is_settle opened ≡ count_if is_settle calls)
      × (count_if is_link_close opened ≡ count_if is_link_close calls)
      × (count_if is_delivery opened ≡ count_if is_delivery calls)
unfolding open_senders
open_senders-counts zero target calls = (omega arith, refl, refl, refl, refl)
open_senders-counts (suc n) target calls =
    (ground
      (arith, open_senders-counts n target (link_open ∷ set_target target ∷ sender_new ∷ calls)))

pub open_receivers-counts :
    (n : ℕ) (source : String) (credit : ℕ) (calls : List Call)
    → let opened = open_receivers n source credit calls in
      (count_if is_link_open opened ≡ n + count_if is_link_open calls)
      × (sum_of credits opened ≡ n * credit + sum_of credits calls)
      × (count_if is_settle opened ≡ count_if is_settle calls)
      × (count_if is_accept opened ≡ count_if is_accept calls)
unfolding open_receivers
open_receivers-counts zero source credit calls = (omega arith, omega arith, refl, refl)
open_receivers-counts (suc n) source credit calls =
    (ground (
      arith,
      open_receivers-counts n source credit
          (link_flow credit ∷ link_open ∷ set_source source ∷ receiver_new ∷ calls),
    ))

module _ {ℓ κ} {E : Type ℓ} {S : Type κ} where
  -- `while (event)`: the events of a batch, up to the one on which the handler says that it is done.
  unfoldable pub handle_batch : (E → S → Run (Bool × S)) → List E → S → Run (Bool × S)
  handle_batch handler [] s = ok (false, s)
  handle_batch handler (e ∷ es) s =
      handler e s >>= λ r. elim r.0 [ true ↦ ok r | false ↦ handle_batch handler es r.1 ]

  -- What every event that meets a condition keeps, a batch keeps.
  pub handle_batch-Ends-on :
      (Q : E → Type 0) (P : S → Type 0) (handler : E → S → Run (Bool × S))
      → ((e : E) (s : S) → Q e → P s → Ends (λ (r : Bool × S). P r.1) (handler e s))
      → (es : List E) (s : S) → All Q es
      → P s
      → Ends (λ (r : Bool × S). P r.1) (handle_batch handler es s)
  unfolding handle_batch
  handle_batch-Ends-on Q P handler keeps [] s q v = v
  handle_batch-Ends-on Q P handler keeps (e ∷ es) s q v =
      Ends-bind (λ (r : Bool × S). P r.1) (λ (r : Bool × S). P r.1) (handler e s) _
        (keeps e s q.0 v)
        (λ r h. (ground (arith, handle_batch-Ends-on Q P handler keeps es r.1 q.1 h)))

  -- The same where the handler returns on such events.
  pub handle_batch-Returns :
      (Q : E → Type 0) (P : S → Type 0) (handler : E → S → Run (Bool × S))
      → ((e : E) (s : S) → Q e → P s → Returns (λ (r : Bool × S). P r.1) (handler e s))
      → (es : List E) (s : S) → All Q es
      → P s
      → Returns (λ (r : Bool × S). P r.1) (handle_batch handler es s)
  unfolding handle_batch
  handle_batch-Returns Q P handler keeps [] s q v = v
  handle_batch-Returns Q P handler keeps (e ∷ es) s q v =
      Returns-bind (λ (r : Bool × S). P r.1) (λ (r : Bool × S). P r.1) (handler e s) _
        (keeps e s q.0 v)
        (λ r h. (ground (arith, handle_batch-Returns Q P handler keeps es r.1 q.1 h)))
