-- ===== src/Common/Halting.antt =====
-- A run of a function that may end the process: a result, or the way in which it ended.
use Prim.Native.Nat.{ℕ}
use mathlib.Core.Path.{◌≡◌, refl}
use mathlib.Core.Logic.{◌≢◌}

pub data Halt : Type 0 where
  exit_code : ℕ → Halt
  aborted assert_failed : Halt
  null_argument : Halt  -- a null pointer is handed to the library
  out_of_fuel : Halt

pub data Run {ℓ} (R : Type ℓ) : Type ℓ where
  halt : Halt → Run R  -- the process is gone
  ok : R → Run R

-- The result of a run that returns, or a default.
abbrev pub result {ℓ} : {R : Type ℓ} → R → Run R → R
result d (ok r) = r
result d (halt h) = d

-- What follows a run is skipped once the process is gone.
infixl 5 ◌>>=◌
abbrev pub ◌>>=◌ {κ ℓ} : {S : Type κ} {R : Type ℓ} → Run R → (R → Run S) → Run S
halt h >>= next = halt h
ok r >>= next = next r

-- If the whole returned, so did its first part.
pub >>=-eq-ok {κ ℓ} :
    {S : Type κ} {R : Type ℓ} (first : Run R) (next : R → Run S) {s : S}
    → (first >>= next) ≡ ok s
    → (r : R) × (first ≡ ok r) × (next r ≡ ok s)
>>=-eq-ok (halt h) next e = cc
>>=-eq-ok (ok r) next e = (r, refl, e)

-- The run ends, and what it returns has the property. A run that ends the process ends too.
abbrev pub Ends {ℓ} : {A : Type ℓ} → (A → Type 0) → Run A → Type 0
Ends P (ok a) = P a
Ends P (halt out_of_fuel) = ⊥
Ends P (halt _) = Unit

pub Ends-bind {ℓ κ} :
    {A : Type ℓ} {B : Type κ} (P : A → Type 0) (Q : B → Type 0) (m : Run A) (f : A → Run B)
    → Ends P m
    → ((a : A) → P a → Ends Q (f a))
    → Ends Q (m >>= f)
Ends-bind P Q (ok a) f h k = k a h
Ends-bind P Q (halt (exit_code n)) f h k = tt
Ends-bind P Q (halt aborted) f h k = tt
Ends-bind P Q (halt assert_failed) f h k = tt
Ends-bind P Q (halt null_argument) f h k = tt
Ends-bind P Q (halt out_of_fuel) f h k = h

-- A run that returns, with the property.
abbrev pub Returns {ℓ} : {A : Type ℓ} → (A → Type 0) → Run A → Type 0
Returns P (ok a) = P a
Returns P (halt h) = ⊥

pub Returns-bind {ℓ κ} :
    {A : Type ℓ} {B : Type κ} (P : A → Type 0) (Q : B → Type 0) (m : Run A) (f : A → Run B)
    → Returns P m
    → ((a : A) → P a → Returns Q (f a))
    → Returns Q (m >>= f)
Returns-bind P Q (ok a) f h k = k a h
Returns-bind P Q (halt w) f h k = absurd h

pub Returns-ok {ℓ} :
    {A : Type ℓ} (P : A → Type 0) (m : Run A) → Returns P m → (a : A) × (m ≡ ok a) × P a
Returns-ok P (ok a) h = (a, refl, h)
Returns-ok P (halt w) h = absurd h

pub Ends-pair {ℓ} :
    {A : Type ℓ} (P Q : A → Type 0) (m : Run A) → Ends P m → Ends Q m → Ends (λ a. P a × Q a) m
Ends-pair P Q (ok a) p q = (p, q)
Ends-pair P Q (halt (exit_code n)) p q = tt
Ends-pair P Q (halt aborted) p q = tt
Ends-pair P Q (halt assert_failed) p q = tt
Ends-pair P Q (halt null_argument) p q = tt
Ends-pair P Q (halt out_of_fuel) p q = p

pub Returns-pair {ℓ} :
    {A : Type ℓ} (P Q : A → Type 0) (m : Run A)
    → Returns P m
    → Returns Q m
    → Returns (λ a. P a × Q a) m
Returns-pair P Q (ok a) p q = (p, q)
Returns-pair P Q (halt w) p q = absurd p

pub Returns-Ends {ℓ} : {A : Type ℓ} (P : A → Type 0) (m : Run A) → Returns P m → Ends P m
Returns-Ends P (ok a) h = h
Returns-Ends P (halt w) h = absurd h

-- A run has enough fuel, and what it returns has the property.
pub Ends-of {ℓ} :
    {A : Type ℓ} (P : A → Type 0) (m : Run A)
    → ((a : A) → m ≡ ok a → P a)
    → (m ≢ halt out_of_fuel)
    → Ends P m
Ends-of P (ok a) h fuel = h a refl
Ends-of P (halt (exit_code n)) h fuel = tt
Ends-of P (halt aborted) h fuel = tt
Ends-of P (halt assert_failed) h fuel = tt
Ends-of P (halt null_argument) h fuel = tt
Ends-of P (halt out_of_fuel) h fuel = absurd (fuel refl)

pub Ends-weaken {ℓ} :
    {A : Type ℓ} (P Q : A → Type 0) (m : Run A) → ((a : A) → P a → Q a) → Ends P m → Ends Q m
Ends-weaken P Q (ok a) h p = h a p
Ends-weaken P Q (halt (exit_code n)) h p = tt
Ends-weaken P Q (halt aborted) h p = tt
Ends-weaken P Q (halt assert_failed) h p = tt
Ends-weaken P Q (halt null_argument) h p = tt
Ends-weaken P Q (halt out_of_fuel) h p = p
