-- ===== src/Wire/Parser.antt =====
-- `NetParser` and `NetUnparser` of libsponge/util/parser.hh and parser.cc. Bytes are numbers.
use cs144_labs.Prelude.{
  ℕ, zero, suc, ◌+◌, ◌*◌, ◌/◌, ◌%◌, ◌^◌, Bool, true, false, List, [], ◌∷◌, if◌then◌else◌, ltb,
  length, take, drop,
}

pub data ParseResult : Type 0 where
  no_error bad_checksum packet_too_short wrong_ip_version header_too_short truncated_packet
        unsupported :
      ParseResult

pub record NetParser : Type 0 where
  pub buffer : List ℕ
  pub error : ParseResult

abbrev pub parser_of : List ℕ → NetParser
parser_of bytes = record { buffer = bytes; error = ParseResult.no_error }

abbrev pub is_error : ParseResult → Bool
is_error ParseResult.no_error = false
is_error _ = true

unfoldable pub check_size : NetParser → ℕ → NetParser
check_size p size =
    if ltb (length p.buffer) size then record p { error = ParseResult.packet_too_short } else p

-- The loop of `_parse_int` over the bytes of an integer of `width` bits.
unfoldable pub big_endian : ℕ → ℕ → List ℕ → ℕ
big_endian width acc [] = acc
big_endian width acc (byte ∷ bytes) =
    big_endian width (((acc * 2 ^ 8) % 2 ^ width + byte) % 2 ^ width) bytes

-- `_parse_int` of an integer of `len` bytes.
unfoldable pub parse_int : ℕ → NetParser → ℕ × NetParser
parse_int len p =
    let checked = check_size p len in
    if is_error checked.error then (0, checked) else (
      big_endian (8 * len) 0 (take len checked.buffer),
      record checked { buffer = drop len checked.buffer },
    )

abbrev pub u32 : NetParser → ℕ × NetParser
u32 p = parse_int 4 p

abbrev pub u16 : NetParser → ℕ × NetParser
u16 p = parse_int 2 p

abbrev pub u8 : NetParser → ℕ × NetParser
u8 p = parse_int 1 p

unfoldable pub remove_prefix : NetParser → ℕ → NetParser
remove_prefix p n =
    let checked = check_size p n in
    if is_error checked.error then checked else record checked { buffer = drop n checked.buffer }

-- The bytes that `_unparse_int` appends for an integer of `len` bytes.
unfoldable pub unparse_int : ℕ → ℕ → List ℕ
unparse_int zero val = []
unparse_int (suc len) val = (val / 256 ^ len) % 256 ∷ unparse_int len val
