-- ===== src/Proton/Program.antt =====
-- What `main` is in the clients with a proactor: the options, the connection, and the loop over batches
-- of events. A signal handler may run before a batch.
use dispatch_tester.Common.{
  Bool, true, false, if◌then◌else◌, Option, none, some, List, [], ◌∷◌, All, Run, ok, halt,
  exit_code, arith, ◌≡◌, refl, ◌>>=◌, Ends, Ends-bind,
}
use dispatch_tester.Proton.Options.{IfSome}
use dispatch_tester.Proton.Links.{handle_batch, handle_batch-Ends-on}

pub All-triv {ℓ} : {A : Type ℓ} {P : A → Type 0} → ((a : A) → P a) → (xs : List A) → All P xs
All-triv f [] = tt
All-triv f (x ∷ xs) = (f x, All-triv f xs)

-- What one call of `pn_proactor_wait` brings: whether a signal came in, and the batch.
pub record Round {ℓ} (E : Type ℓ) : Type ℓ where
  pub signal : Bool
  pub events : List E

-- A batch before which no signal came in.
abbrev pub quiet {ℓ} : {E : Type ℓ} → List E → Round E
quiet es = record { signal = false; events = es }

-- `usage` ends the process.
abbrev pub start {ℓ κ} : {S : Type ℓ} {R : Type κ} → Option S → (S → Run R) → Run R
start none f = halt (exit_code 1)
start (some s) f = f s

pub start-Ends {ℓ κ} :
    {S : Type ℓ} {R : Type κ} (P : S → Type 0) (Q : R → Type 0) (o : Option S) (f : S → Run R)
    → IfSome P o
    → ((s : S) → P s → Ends Q (f s))
    → Ends Q (start o f)
start-Ends P Q none f h k = tt
start-Ends P Q (some s) f h k = k s h

module _ {ℓ κ} {E : Type ℓ} {S : Type κ} where
  -- `while (!done)`: the Boolean says whether the loop was left; without a further batch it waits.
  unfoldable pub event_loop :
      (S → S) → (E → S → Run (Bool × S)) → List (Round E) → S → Run (Bool × S)
  event_loop on_signal handler [] s = ok (false, s)
  event_loop on_signal handler (r ∷ rs) s =
      handle_batch handler r.events (if r.signal then on_signal s else s) >>= λ p. elim p.0 [
        | true ↦ ok p
        | false ↦ event_loop on_signal handler rs p.1
      ]

  -- After a batch that does not leave the loop, the loop goes on from its state.
  pub event_loop-batch :
      (on_signal : S → S) (handler : E → S → Run (Bool × S)) (es : List E) (rounds : List (Round E))
      (s t : S)
      → handle_batch handler es s ≡ ok (false, t)
      → event_loop on_signal handler (quiet es ∷ rounds) s ≡ event_loop on_signal handler rounds t
  unfolding event_loop
  event_loop-batch on_signal handler es rounds s t run = (rw run refl)

  -- What the signal handler keeps and every event that meets a condition, the loop keeps.
  pub event_loop-Ends :
      (Q : E → Type 0) (P : S → Type 0) (on_signal : S → S) (handler : E → S → Run (Bool × S))
      → ((s : S) → P s → P (on_signal s))
      → ((e : E) (s : S) → Q e → P s → Ends (λ (r : Bool × S). P r.1) (handler e s))
      → (rs : List (Round E)) (s : S) → All (λ (r : Round E). All Q r.events) rs
      → P s
      → Ends (λ (r : Bool × S). P r.1) (event_loop on_signal handler rs s)
  unfolding event_loop
  event_loop-Ends Q P on_signal handler signals keeps [] s q v = v
  event_loop-Ends Q P on_signal handler signals keeps (r ∷ rs) s q v =
      Ends-bind (λ (r : Bool × S). P r.1) (λ (r : Bool × S). P r.1)
        (handle_batch handler r.events (if r.signal then on_signal s else s)) _
        (handle_batch-Ends-on Q P handler keeps r.events _ q.0 (ground (arith, signals s v)))
        (λ p h. (ground (arith, event_loop-Ends Q P on_signal handler signals keeps rs p.1 q.1 h)))

  -- The same where every event is allowed.
  pub event_loop-keeps :
      (P : S → Type 0) (on_signal : S → S) (handler : E → S → Run (Bool × S))
      → ((s : S) → P s → P (on_signal s))
      → ((e : E) (s : S) → P s → Ends (λ (r : Bool × S). P r.1) (handler e s))
      → (rs : List (Round E)) (s : S) → P s
      → Ends (λ (r : Bool × S). P r.1) (event_loop on_signal handler rs s)
  event_loop-keeps P on_signal handler signals keeps rs s v =
      event_loop-Ends (λ e. Unit) P on_signal handler signals (λ e t q. keeps e t) rs s
        (All-triv (λ r. All-triv (λ e. tt) r.events) rs) v
