-- ===== src/Wire/Ethernet.antt =====
-- `EthernetHeader` and `EthernetFrame` of libsponge/tcp_helpers/ethernet_header.{hh,cc} and
-- ethernet_frame.{hh,cc}. An `EthernetAddress` is a list of six bytes.
use cs144_labs.Prelude.{ℕ, zero, suc, List, [], ◌∷◌, ◌++◌, if◌then◌else◌, ltb, length}
use cs144_labs.Wire.Parser.{ParseResult, NetParser, parser_of, u8, u16, unparse_int}

pub record EthernetHeader : Type 0 where
  pub dst : List ℕ
  pub src : List ℕ
  pub type : ℕ

-- `EthernetHeader::LENGTH`
abbrev pub header_length : ℕ
header_length = 14

abbrev pub type_ipv4 : ℕ
type_ipv4 = 2048

abbrev pub address_size : ℕ
address_size = 6

-- The loop that reads `n` bytes.
unfoldable pub read_bytes : ℕ → NetParser → List ℕ × NetParser
read_bytes zero p = ([], p)
read_bytes (suc n) p =
    let (byte, p1) = u8 p in let (bytes, p2) = read_bytes n p1 in (byte ∷ bytes, p2)

-- The loop that writes the bytes of an address.
unfoldable pub write_bytes : List ℕ → List ℕ
write_bytes [] = []
write_bytes (byte ∷ bytes) = unparse_int 1 byte ++ write_bytes bytes

-- The header, the parser and the result of `EthernetHeader::parse`.
pub record Parsed : Type 0 where
  pub header : EthernetHeader
  pub parser : NetParser
  pub result : ParseResult

-- A parse into a header that holds `old`.
unfoldable pub parse : EthernetHeader → NetParser → Parsed
parse old p =
    let (dst, p1) = read_bytes address_size p in
    let (src, p2) = read_bytes address_size p1 in
    let (type, p3) = u16 p2 in
    if ltb (length p.buffer) header_length
    then record { header = old; parser = p; result = ParseResult.packet_too_short }
    else record {
      header = record { dst = dst; src = src; type = type };
      parser = p3;
      result = p3.error;
    }

unfoldable pub serialize : EthernetHeader → List ℕ
serialize h = write_bytes h.dst ++ (write_bytes h.src ++ unparse_int 2 h.type)

pub record EthernetFrame : Type 0 where
  pub header : EthernetHeader
  pub payload : List ℕ

-- The frame and the result of `EthernetFrame::parse`. The result of the header's `parse` is dropped.
unfoldable pub parse_frame : EthernetFrame → List ℕ → EthernetFrame × ParseResult
parse_frame old buffer =
    let parsed = parse old.header (parser_of buffer) in
    (record { header = parsed.header; payload = parsed.parser.buffer }, parsed.parser.error)

unfoldable pub serialize_frame : EthernetFrame → List ℕ
serialize_frame frame = serialize frame.header ++ frame.payload
