-- ===== src/Proton/Message.antt =====
-- A message as the clients build it, and the loop that encodes it into a buffer that grows. The
-- encoder is the library's: `encode m capacity` is what `pn_message_encode` answers.
pub mod Encode
use dispatch_tester.Common.{
  ℕ, zero, suc, ◌*◌, String, List, u64, Run, ok, halt, exit_code, out_of_fuel,
}

-- The calls that fill a section of a message, in their order; texts and binaries by their length.
pub data DataCall : Type 0 where
  put_list put_map enter leave : DataCall
  put_long put_symbol put_string put_binary put_ulong : ℕ → DataCall
  put_char put_byte put_short : ℕ → DataCall
  put_double put_bool : DataCall

pub record Message : Type 0 where
  pub address : String
  pub priority : ℕ
  pub body : List DataCall
  pub annotations : List DataCall

-- The result code PN_OVERFLOW, another error, or success with the encoded length.
pub data Encoded : Type 0 where
  overflow failed : Encoded
  encoded : ℕ → Encoded

-- Doublings of a buffer of more than 512 octets that reach any 64-bit size.
abbrev pub encode_fuel : ℕ
encode_fuel = 64

-- The `do … while (rc == PN_OVERFLOW)` loop: the final buffer size and the encoded length.
unfoldable pub encode_loop : (ℕ → Encoded) → ℕ → ℕ → Run (ℕ × ℕ)
encode_loop enc zero size = halt out_of_fuel
encode_loop enc (suc fuel) size = elim (enc size) [
  | overflow ↦ encode_loop enc fuel (u64 (size * 2))
  | failed ↦ halt (exit_code 255)
  | encoded len ↦ ok (size, len)
]
