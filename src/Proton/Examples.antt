-- ===== src/Proton/Examples.antt =====
-- The clocks and the credit rule on concrete values.
use dispatch_tester.Common.{ℕ, ◌≡◌, refl, List, [], ◌∷◌, ◌++◌, pos}
use dispatch_tester.Proton.{Call, link_flow, link_open}
use dispatch_tester.Proton.Address.{
  link_sender_address, link_receiver_address, addresses_joined, amqp_scheme, amqps_scheme, colon,
  default_port, loader_address, oom_address,
}
use dispatch_tester.Proton.Clock.{Timespec, diff_timespec_usec}
use dispatch_tester.Proton.Credit.{replenish}

abbrev start : Timespec
start = record { tv_sec = 1; tv_nsec = 999999000 }

abbrev end : Timespec
end = record { tv_sec = 2; tv_nsec = 1400 }

difference : diff_timespec_usec start end ≡ pos 3
unfolding diff_timespec_usec
difference = refl

-- A window of 100, of which 50 have arrived, and two more are wanted.
abbrev opened : List Call
opened = link_flow 100 ∷ link_open ∷ []

filled_up : replenish 100 52 50 50 opened ≡ link_flow 50 ∷ opened
unfolding replenish
filled_up = refl

-- The host "h1" and the port "99".
abbrev host : List ℕ
host = 104 ∷ 49 ∷ []

abbrev port : List ℕ
port = 57 ∷ 57 ∷ []

addresses_joined_example :
    let text = host ++ colon ∷ port in
    (loader_address (amqp_scheme ++ text) ≡ (host, port))
    × (loader_address (amqps_scheme ++ text) ≡ (host, port))
    × (loader_address (amqp_scheme ++ host) ≡ (host, default_port))
    × (oom_address (amqp_scheme ++ text) ≡ (host, port))
    × (link_sender_address text ≡ (host, port))
    × (link_receiver_address text ≡ (host, port))
addresses_joined_example = addresses_joined host port (refl, (refl, tt)) (refl, (refl, tt))
