-- ===== src/Wire/Ip.antt =====
-- `IPv4Header` and `IPv4Datagram` of libsponge/tcp_helpers/ipv4_header.{hh,cc} and
-- ipv4_datagram.{hh,cc}.
use cs144_labs.Prelude.{
  ℕ, ◌+◌, ◌-◌, ◌*◌, ◌/◌, ◌%◌, ◌^◌, Bool, true, false, not, Option, none, some, List, ◌++◌,
  if◌then◌else◌, ltb, ◌==◌, length, take, replicate, add32,
}
use cs144_labs.Wire.Parser.{
  ParseResult, NetParser, parser_of, is_error, u8, u16, u32, remove_prefix, unparse_int,
}
use cs144_labs.Wire.Checksum
use cs144_labs.Wire.Tcp.{bit, flag}

abbrev pub header_length : ℕ
header_length = 20

abbrev pub default_ttl : ℕ
default_ttl = 128

abbrev pub proto_tcp : ℕ
proto_tcp = 6

pub record Ipv4Header : Type 0 where
  pub ver : ℕ
  pub hlen : ℕ
  pub tos : ℕ
  pub len : ℕ
  pub id : ℕ
  pub df : Bool
  pub mf : Bool
  pub offset : ℕ
  pub ttl : ℕ
  pub proto : ℕ
  pub cksum : ℕ
  pub src : ℕ
  pub dst : ℕ

abbrev pub new_header : Ipv4Header
new_header = record {
  ver = 4;
  hlen = 5;
  tos = 0;
  len = 0;
  id = 0;
  df = true;
  mf = false;
  offset = 0;
  ttl = default_ttl;
  proto = proto_tcp;
  cksum = 0;
  src = 0;
  dst = 0;
}

pub record Ipv4Datagram : Type 0 where
  pub header : Ipv4Header
  pub payload : List ℕ

-- The header, the parser and the result of `IPv4Header::parse`.
pub record Parsed : Type 0 where
  pub header : Ipv4Header
  pub parser : NetParser
  pub result : ParseResult

-- The check of the checksum over the first `4 * hlen` bytes.
unfoldable pub check_sum : Ipv4Header → List ℕ → ParseResult
check_sum header original =
    elim (Checksum.value
      (Checksum.add (Checksum.checksum_from 0) (take (4 * header.hlen) original))) [
        | none ↦ ParseResult.bad_checksum
        | some sum ↦ if sum == 0 then ParseResult.no_error else ParseResult.bad_checksum
      ]

-- What `parse` does after the fields; `original` is the buffer before them.
unfoldable pub finish : Ipv4Header → List ℕ → NetParser → Parsed
finish header original p =
    let skipped = remove_prefix p (header.hlen * 4 - header_length) in
    if ltb (length original) (4 * header.hlen)
    then record { header = header; parser = p; result = ParseResult.packet_too_short }
    else (if not (header.ver == 4)
        then record { header = header; parser = p; result = ParseResult.wrong_ip_version }
        else (if ltb header.hlen 5
            then record { header = header; parser = p; result = ParseResult.header_too_short }
            else (if not (length original == header.len)
                then record { header = header; parser = p; result = ParseResult.truncated_packet }
                else record {
                  header = header;
                  parser = skipped;
                  result =
                      if is_error skipped.error then skipped.error else check_sum header original;
                })))

-- The fields, in a buffer of at least `LENGTH` bytes.
unfoldable pub parse_fields : NetParser → Parsed
parse_fields p =
    let (first_byte, p1) = u8 p in
    let (tos, p2) = u8 p1 in
    let (len, p3) = u16 p2 in
    let (id, p4) = u16 p3 in
    let (fo_val, p5) = u16 p4 in
    let (ttl, p6) = u8 p5 in
    let (proto, p7) = u8 p6 in
    let (cksum, p8) = u16 p7 in
    let (src, p9) = u32 p8 in
    let (dst, p10) = u32 p9 in
    finish
      (record {
        ver = first_byte / 2 ^ 4;
        hlen = first_byte % 2 ^ 4;
        tos = tos;
        len = len;
        id = id;
        df = bit (2 ^ 14) fo_val;
        mf = bit (2 ^ 13) fo_val;
        offset = fo_val % 2 ^ 13;
        ttl = ttl;
        proto = proto;
        cksum = cksum;
        src = src;
        dst = dst;
      })
      p.buffer p10

-- A parse into a header that holds `old`.
unfoldable pub parse : Ipv4Header → NetParser → Parsed
parse old p =
    if ltb (length p.buffer) header_length
    then record { header = old; parser = p; result = ParseResult.packet_too_short }
    else parse_fields p

unfoldable pub fields : Ipv4Header → List ℕ → List ℕ
fields h rest =
    unparse_int 1 ((h.ver * 2 ^ 4) % 2 ^ 8 + h.hlen % 2 ^ 4)
    ++ (unparse_int 1 h.tos
        ++ (unparse_int 2 h.len
            ++ (unparse_int 2 h.id
                ++ (unparse_int 2 (flag h.df (2 ^ 14) + flag h.mf (2 ^ 13) + h.offset % 2 ^ 13)
                    ++ (unparse_int 1 h.ttl
                        ++ (unparse_int 1 h.proto
                            ++ (unparse_int 2 h.cksum
                                ++ (unparse_int 4 h.src ++ (unparse_int 4 h.dst ++ rest)))))))))

-- `none` is one of the two exceptions.
unfoldable pub serialize : Ipv4Header → Option (List ℕ)
serialize h =
    if not (h.ver == 4)
    then none
    else (if ltb (4 * h.hlen) header_length
        then none
        else some (fields h (replicate (4 * h.hlen - header_length) 0)))

-- A `uint16_t`, of a difference that may be negative.
abbrev pub payload_length : Ipv4Header → ℕ
payload_length h = (h.len + 2 ^ 16 - (4 * h.hlen) % 2 ^ 16) % 2 ^ 16

unfoldable pub pseudo_cksum : Ipv4Header → ℕ
pseudo_cksum h =
    add32
      (add32
        (add32 (add32 (h.src / 2 ^ 16) (h.src % 2 ^ 16)) (add32 (h.dst / 2 ^ 16) (h.dst % 2 ^ 16)))
        h.proto)
      (payload_length h)

-- The datagram and the result of `IPv4Datagram::parse`. The result of the header's `parse` is dropped.
unfoldable pub parse_datagram : Ipv4Datagram → List ℕ → Ipv4Datagram × ParseResult
parse_datagram old buffer =
    let parsed = parse old.header (parser_of buffer) in
    (
      record { header = parsed.header; payload = parsed.parser.buffer },
      if length parsed.parser.buffer == payload_length parsed.header
          then parsed.parser.error
          else ParseResult.packet_too_short,
    )

-- The bytes with a checksum in the header.
abbrev pub serialize_with : Ipv4Datagram → ℕ → Option (List ℕ)
serialize_with dgram cksum = elim (serialize (record dgram.header { cksum = cksum })) [
  | none ↦ none
  | some header ↦ some (header ++ dgram.payload)
]

-- `none` is the exception of a payload of the wrong size, or one of the header's.
unfoldable pub serialize_datagram : Ipv4Datagram → Option (List ℕ)
serialize_datagram dgram =
    let checked : Option (List ℕ) = elim (serialize (record dgram.header { cksum = 0 })) [
      | none ↦ none
      | some header ↦ elim (Checksum.value (Checksum.add (Checksum.checksum_from 0) header)) [
        | none ↦ none
        | some sum ↦ serialize_with dgram sum
      ]
    ] in
    if length dgram.payload == payload_length dgram.header then checked else none
