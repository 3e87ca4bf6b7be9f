-- ===== src/Proton/Options.antt =====
-- The command line as `getopt` hands it over, one letter and its argument at a time, and the
-- conversions of `sscanf`. Both are the C library's, so their results are arguments of the model.
use Prim.Native.Char.{code}
use dispatch_tester.Common.{ℕ, ◌<◌, ◌^◌, ◌≡◌, String, Option, none, some, List, [], ◌∷◌, ℤ}

-- `opt_other` is any letter that a client does not know, and `?`.
pub data Letter : Type 0 where
  opt_a opt_c opt_f opt_i opt_l opt_n opt_p opt_q opt_s opt_t opt_u opt_v opt_w : Letter
  opt_upper_b opt_upper_d opt_upper_f opt_upper_h opt_upper_m opt_upper_p : Letter
  opt_upper_s opt_upper_w opt_other : Letter

-- `none` is a conversion that did not succeed.
pub record Scanf : Type 0 where
  pub scan_u64 : String → Option ℕ
  pub scan_u32 : String → Option ℕ
  pub scan_u8 : String → Option ℕ
  pub scan_int : String → Option ℤ

-- `optarg[0]`.
abbrev pub first_char : String → ℕ
first_char String.[] = 0
first_char (String.◌∷◌ c s) = code c

-- The loop over `getopt`: `none` is a call of `usage`, which ends the process.
abbrev pub parse {ℓ κ} :
    {A : Type κ} {C : Type ℓ} → (Letter → A → C → Option C) → List (Letter × A) → C → Option C
parse f [] cfg = some cfg
parse f ((c, arg) ∷ rest) cfg = elim (f c arg cfg) [ none ↦ none | some cfg' ↦ parse f rest cfg' ]

-- What holds of a result, if there is one.
abbrev pub IfSome {ℓ} : {C : Type ℓ} → (C → Type 0) → Option C → Type 0
IfSome P none = Unit
IfSome P (some s) = P s

-- What the C library documents: a result lies within its type.
pub record IsScanf (scanf : Scanf) : Type 0 where
  pub u64_word : (text : String) → IfSome (λ n. n < 2 ^ 64) (scanf.scan_u64 text)
  pub u32_word : (text : String) → IfSome (λ n. n < 2 ^ 32) (scanf.scan_u32 text)

pub IfSome-of {ℓ} :
    {C : Type ℓ} (P : C → Type 0) (o : Option C) (s : C) → IfSome P o → o ≡ some s → P s
IfSome-of P none s h e = cc
IfSome-of P (some t) s h e = let same : t ≡ s = cc in rw same at h

IfSome-bind {ℓ κ} :
    {C : Type ℓ} {D : Type κ} (P : C → Type 0) (Q : D → Type 0) (o : Option C) (f : C → Option D)
    → IfSome P o
    → ((s : C) → P s → IfSome Q (f s))
    → IfSome Q (elim o [ none ↦ none | some s ↦ f s ])
IfSome-bind P Q none f h k = tt
IfSome-bind P Q (some s) f h k = k s h

-- What each option that is taken keeps, the whole command line keeps.
pub parse-keeps {ℓ κ} :
    {A : Type κ} {C : Type ℓ} (P : C → Type 0) (f : Letter → A → C → Option C)
    → ((c : Letter) (arg : A) (s : C) → P s → IfSome P (f c arg s))
    → (args : List (Letter × A)) (s : C) → P s
    → IfSome P (parse f args s)
parse-keeps P f keeps [] s v = v
parse-keeps P f keeps ((c, arg) ∷ args) s v =
    IfSome-bind P P (f c arg s) (parse f args) (keeps c arg s v)
      (λ t h. parse-keeps P f keeps args t h)

-- The octets of a text.
abbrev pub text_octets : String → List ℕ
text_octets String.[] = []
text_octets (String.◌∷◌ c s) = code c ∷ text_octets s
