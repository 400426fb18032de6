-- ===== src/Wire/Tcp.antt =====
-- `TCPHeader` and `TCPSegment` of libsponge/tcp_helpers/tcp_header.cc and tcp_segment.cc, on the wire.
use cs144_labs.Prelude.{
  ℕ, ◌+◌, ◌-◌, ◌*◌, ◌/◌, ◌%◌, ◌^◌, Bool, Option, none, some, List, ◌++◌, if◌then◌else◌, ltb, ◌==◌,
  replicate,
}
use cs144_labs.Segment.{TcpHeader, TcpSegment, header_length}
use cs144_labs.Wire.Parser.{
  ParseResult, NetParser, parser_of, u8, u16, u32, remove_prefix, unparse_int,
}
use cs144_labs.Wire.Checksum

-- Whether the bit of this weight is set.
abbrev pub bit : ℕ → ℕ → Bool
bit weight byte = (byte / weight) % 2 == 1

abbrev pub flag : Bool → ℕ → ℕ
flag b weight = if b then weight else 0

-- The header, the parser and the result of `TCPHeader::parse`.
pub record Parsed : Type 0 where
  pub header : TcpHeader
  pub parser : NetParser
  pub result : ParseResult

-- What `parse` does after the fields.
unfoldable pub finish : TcpHeader → NetParser → Parsed
finish header p =
    let skipped = remove_prefix p (header.doff * 4 - header_length) in
    if ltb header.doff 5
    then record { header = header; parser = p; result = ParseResult.header_too_short }
    else record { header = header; parser = skipped; result = skipped.error }

-- The parsers after each field.
unfoldable pub parse : NetParser → Parsed
parse p =
    let (sport, p1) = u16 p in
    let (dport, p2) = u16 p1 in
    let (seqno, p3) = u32 p2 in
    let (ackno, p4) = u32 p3 in
    let (offset, p5) = u8 p4 in
    let (flags, p6) = u8 p5 in
    let (win, p7) = u16 p6 in
    let (cksum, p8) = u16 p7 in
    let (uptr, p9) = u16 p8 in
    finish
      (record {
        sport = sport;
        dport = dport;
        seqno = seqno;
        ackno = ackno;
        doff = offset / 2 ^ 4;
        urg = bit 32 flags;
        ack = bit 16 flags;
        psh = bit 8 flags;
        rst = bit 4 flags;
        syn = bit 2 flags;
        fin = bit 1 flags;
        win = win;
        cksum = cksum;
        uptr = uptr;
      })
      p9

unfoldable pub flags_of : TcpHeader → ℕ
flags_of h =
    flag h.urg 32 + flag h.ack 16 + flag h.psh 8 + flag h.rst 4 + flag h.syn 2 + flag h.fin 1

-- The bytes before the padding, and what follows them.
unfoldable pub fields : TcpHeader → List ℕ → List ℕ
fields h rest =
    unparse_int 2 h.sport
    ++ (unparse_int 2 h.dport
        ++ (unparse_int 4 h.seqno
            ++ (unparse_int 4 h.ackno
                ++ (unparse_int 1 ((h.doff * 2 ^ 4) % 2 ^ 8)
                    ++ (unparse_int 1 (flags_of h)
                        ++ (unparse_int 2 h.win
                            ++ (unparse_int 2 h.cksum ++ (unparse_int 2 h.uptr ++ rest))))))))

-- `none` is the exception of a header too short; `resize` fills with zeros.
unfoldable pub serialize : TcpHeader → Option (List ℕ)
serialize h =
    if ltb h.doff 5 then none else some (fields h (replicate (h.doff * 4 - header_length) 0))

-- The segment and the result of `TCPSegment::parse`. The segment that a bad checksum leaves is the one
-- that was there before. The result of the header's `parse` is dropped.
unfoldable pub parse_segment : TcpSegment → List ℕ → ℕ → Option (TcpSegment × ParseResult)
parse_segment old buffer datagram_layer_checksum =
    let parsed = parse (parser_of buffer) in
    elim (Checksum.value (Checksum.add (Checksum.checksum_from datagram_layer_checksum) buffer)) [
      | none ↦ none
      | some sum ↦ some (
          if sum == 0
          then (
            record { header = parsed.header; payload = parsed.parser.buffer },
            parsed.parser.error,
          )
          else (old, ParseResult.bad_checksum))
    ]

-- The bytes with a checksum in the header.
abbrev pub serialize_with : TcpSegment → ℕ → Option (List ℕ)
serialize_with seg cksum = elim (serialize (record seg.header { cksum = cksum })) [
  | none ↦ none
  | some header ↦ some (header ++ seg.payload)
]

unfoldable pub serialize_segment : TcpSegment → ℕ → Option (List ℕ)
serialize_segment seg datagram_layer_checksum = elim (serialize_with seg 0) [
  | none ↦ none
  | some bytes ↦
      elim (Checksum.value (Checksum.add (Checksum.checksum_from datagram_layer_checksum) bytes)) [
        | none ↦ none
        | some sum ↦ serialize_with seg sum
      ]
]
