-- ===== src/Sender/Annotations.antt =====
-- The message annotations of benchmarks/clients/src/sender.c, as the calls that write them.
use dispatch_tester.Common.{ℕ, List, [], ◌∷◌}
use dispatch_tester.Proton.Message.{
  DataCall, put_list, put_map, enter, leave, put_symbol, put_string, put_binary, put_ulong,
  put_char, put_byte, put_short, put_double, put_bool,
}

-- The length of `big_string`, with its terminator.
abbrev pub big_string_size : ℕ
big_string_size = 1002

unfoldable pub add_message_annotations : List DataCall
add_message_annotations =
    put_map
    ∷ enter
    ∷ put_symbol 6
    ∷ put_string 7
    ∷ put_symbol 12
    ∷ put_string 13
    ∷ put_symbol 6
    ∷ put_map
    ∷ enter
    ∷ put_symbol 11
    ∷ put_char b'X'
    ∷ put_symbol 11
    ∷ put_byte 0x12
    ∷ put_symbol 11
    ∷ put_string 15
    ∷ put_symbol 11
    ∷ put_binary big_string_size
    ∷ leave
    ∷ put_symbol 8
    ∷ put_ulong 0xDEADBEEFCAFEBEEF
    ∷ put_symbol 7
    ∷ put_list
    ∷ enter
    ∷ put_string big_string_size
    ∷ put_double
    ∷ put_short 1966
    ∷ leave
    ∷ put_symbol 7
    ∷ put_bool
    ∷ leave
    ∷ []
