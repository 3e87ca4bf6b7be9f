-- ===== src/Scale.antt =====
-- clients/scale/src/: three small clients, of which many are run at once. What they share: the message
-- that is encoded once at the start (sender.c and punisher.c), and the closing of the endpoints.
pub mod Encode
pub mod Sender
pub mod Receiver
pub mod Punisher
mod Session
mod Examples
use dispatch_tester.Common.{
  u32, ltb, ◌+◌, String, Bool, Option, none, some, if◌then◌else◌, exit_code, ℕ, zero, suc, ◌*◌,
  List, ◌∷◌, u64, Run, ok, halt, out_of_fuel,
}
use dispatch_tester.Proton

-- The length of the message as the library gets it: a `size_t` that was kept in an `int`.
abbrev pub kept_in_int : ℕ → ℕ
kept_in_int n =
    let low : ℕ = u32 n in if ltb low 2147483648 then low else low + 18446744069414584320

-- What `pn_message_encode` answers: PN_OVERFLOW or any other code, with what it leaves in `len`.
pub data Answer : Type 0 where
  overflow encoded : ℕ → Answer

-- The size of the first buffer, and doublings of it that reach any 64-bit size.
abbrev pub first_size : ℕ
first_size = 128

abbrev pub encode_fuel : ℕ
encode_fuel = 57

-- The `do … while (rc == PN_OVERFLOW)` loop: the size of the buffer, and `msg_len`.
unfoldable pub encode_message : (ℕ → Answer) → ℕ → ℕ → Run (ℕ × ℕ)
encode_message encode zero len = halt out_of_fuel
encode_message encode (suc fuel) len = elim (encode len) [
  | overflow left ↦ encode_message encode fuel (u64 (left * 2))
  | encoded size ↦ ok (len, size)
]

-- What `main` needs of the library to build its message, from the target and the text: whether
-- `pn_data_fill` fails, and what `pn_message_encode` answers.
pub record Builder : Type 0 where
  pub fails : String → Bool
  pub encode : String → String → ℕ → Answer

-- The message of `main`: the text is the operand of the command line, if there is one.
unfoldable pub build_message : Builder → String → Option String → Run (ℕ × ℕ)
build_message b target operand =
    let text : String = elim operand [ none ↦ "Hello World!" | some t ↦ t ] in
    if b.fails text
    then halt (exit_code 1)
    else encode_message (b.encode target text) encode_fuel first_size

-- The clean shutdown: the link, its session and the connection.
abbrev pub close_all : List Proton.Call → List Proton.Call
close_all calls = Proton.connection_close ∷ Proton.session_close ∷ Proton.link_close ∷ calls
