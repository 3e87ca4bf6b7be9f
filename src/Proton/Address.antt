-- ===== src/Proton/Address.antt =====
-- The host addresses of the loaders (skupper-router/clients/link-loader.c and session-loader.c) and of
-- skupper-router/oomster/oom-sender.c: a text is the list of its octets.
use dispatch_tester.Common.{
  ℕ, ◌≡◌, refl, false, if◌then◌else◌, ◌==◌, Option, none, some, List, [], ◌∷◌, ◌++◌, All, arith,
}

abbrev pub colon : ℕ
colon = 58

-- "amqps://", "amqp://" and "5672".
abbrev pub amqps_scheme : List ℕ
amqps_scheme = 97 ∷ 109 ∷ 113 ∷ 112 ∷ 115 ∷ 58 ∷ 47 ∷ 47 ∷ []

abbrev pub amqp_scheme : List ℕ
amqp_scheme = 97 ∷ 109 ∷ 113 ∷ 112 ∷ 58 ∷ 47 ∷ 47 ∷ []

abbrev pub default_port : List ℕ
default_port = 53 ∷ 54 ∷ 55 ∷ 50 ∷ []

-- `strncmp` with a prefix, and the pointer moved beyond it.
abbrev pub skip_prefix : List ℕ → List ℕ → Option (List ℕ)
skip_prefix [] text = some text
skip_prefix (c ∷ prefix) [] = none
skip_prefix (c ∷ prefix) (d ∷ text) = if c == d then skip_prefix prefix text else none

abbrev pub or_else : Option (List ℕ) → List ℕ → List ℕ
or_else none text = text
or_else (some rest) text = rest

unfoldable pub strip_scheme : List ℕ → List ℕ
strip_scheme text =
    or_else (skip_prefix amqps_scheme text) (or_else (skip_prefix amqp_scheme text) text)

-- The cut at the first colon, which `strchr` finds: the host, and the port if there is one.
unfoldable pub cut_first : List ℕ → List ℕ × Option (List ℕ)
cut_first [] = ([], none)
cut_first (c ∷ cs) =
    let (host, port) = cut_first cs in if c == colon then ([], some cs) else (c ∷ host, port)

-- The cut at the last colon, which `strrchr` finds.
unfoldable pub cut_last : List ℕ → List ℕ × Option (List ℕ)
cut_last [] = ([], none)
cut_last (c ∷ cs) =
    let (host, port) = cut_last cs in
    elim port [
      | some text ↦ (c ∷ host, some text)
      | none ↦ if c == colon then ([], some cs) else (c ∷ host, none)
    ]

-- The host and the port of the loaders, and of the OOM sender.
unfoldable pub loader_address : List ℕ → List ℕ × List ℕ
loader_address text =
    let (host, port) = cut_first (strip_scheme text) in (host, or_else port default_port)

unfoldable pub oom_address : List ℕ → List ℕ × List ℕ
oom_address text =
    let (host, port) = cut_last (or_else (skip_prefix amqp_scheme text) text) in
    (host, or_else port default_port)

-- The host and the port of the link sender and of the link receiver, which take no scheme.
unfoldable pub link_sender_address : List ℕ → List ℕ × List ℕ
link_sender_address text = let (host, port) = cut_first text in (host, or_else port default_port)

unfoldable pub link_receiver_address : List ℕ → List ℕ × List ℕ
link_receiver_address text = let (host, port) = cut_last text in (host, or_else port default_port)

-- A text without a colon.
abbrev pub IsPlain : List ℕ → Type 0
IsPlain = All (λ c. (c == colon) ≡ false)

cut_first-joined :
    (host port : List ℕ) → IsPlain host → cut_first (host ++ colon ∷ port) ≡ (host, some port)
unfolding cut_first
cut_first-joined [] port p = refl
cut_first-joined (c ∷ host) port p = (ground (arith, cut_first-joined host port p.1))

cut_first-plain : (host : List ℕ) → IsPlain host → cut_first host ≡ (host, none)
unfolding cut_first
cut_first-plain [] p = refl
cut_first-plain (c ∷ host) p = (ground (arith, cut_first-plain host p.1))

cut_last-plain : (host : List ℕ) → IsPlain host → cut_last host ≡ (host, none)
unfolding cut_last
cut_last-plain [] p = refl
cut_last-plain (c ∷ host) p = (ground (arith, cut_last-plain host p.1))

cut_last-joined :
    (host port : List ℕ) → IsPlain port → cut_last (host ++ colon ∷ port) ≡ (host, some port)
unfolding cut_last
cut_last-joined [] port p = (rw (cut_last-plain port p) refl)
cut_last-joined (c ∷ host) port p = (ground (arith, cut_last-joined host port p))

-- From an address with the scheme amqp or amqps, a host without a colon, a colon and a port, the
-- loaders get the host and the port back; with the scheme amqp, a host without a colon and no port
-- they get the default port.
pub loader_address-joined :
    (host port : List ℕ)
    → IsPlain host
    → (loader_address (amqp_scheme ++ (host ++ colon ∷ port)) ≡ (host, port))
      × (loader_address (amqps_scheme ++ (host ++ colon ∷ port)) ≡ (host, port))
      × (loader_address (amqp_scheme ++ host) ≡ (host, default_port))
unfolding loader_address strip_scheme
loader_address-joined host port p = (
  (rw (cut_first-joined host port p) refl),
  (rw (cut_first-joined host port p) refl),
  (rw (cut_first-plain host p) refl),
)

-- From an address with the scheme amqp, any host, a colon and a port without a colon, the OOM
-- sender gets the host and the port back.
pub oom_address-joined :
    (host port : List ℕ)
    → IsPlain port
    → oom_address (amqp_scheme ++ (host ++ colon ∷ port)) ≡ (host, port)
unfolding oom_address
oom_address-joined host port p = (rw (cut_last-joined host port p) refl)

-- From a host and a port without a colon, joined by one, the link sender and the link receiver get
-- both back; so do the loaders with the scheme amqp or amqps in front, and the OOM sender with the
-- scheme amqp; and with the scheme amqp and the host alone the loaders get the default port.
pub addresses_joined :
    (host port : List ℕ)
    → IsPlain host
    → IsPlain port
    → let text = host ++ colon ∷ port in
      (loader_address (amqp_scheme ++ text) ≡ (host, port))
      × (loader_address (amqps_scheme ++ text) ≡ (host, port))
      × (loader_address (amqp_scheme ++ host) ≡ (host, default_port))
      × (oom_address (amqp_scheme ++ text) ≡ (host, port))
      × (link_sender_address text ≡ (host, port))
      × (link_receiver_address text ≡ (host, port))
unfolding link_sender_address link_receiver_address
addresses_joined host port p q =
    let (amqp, amqps, bare) = loader_address-joined host port p in
    (
      amqp,
      amqps,
      bare,
      oom_address-joined host port q,
      rw (cut_first-joined host port p) refl,
      rw (cut_last-joined host port q) refl,
    )
