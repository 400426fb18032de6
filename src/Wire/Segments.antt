-- ===== src/Wire/Segments.antt =====
-- `TCPSegment::serialize` against `TCPSegment::parse`, the checksum included.
use cs144_labs.Prelude.{
  ℕ, ◌+◌, ◌-◌, ◌*◌, ◌^◌, ◌≤◌, ◌<◌, ◌≡◌, refl, ap, false, some, List, ◌++◌, arith, le→ltb, length,
  replicate, length-append, length-replicate,
}
use cs144_labs.Segment.{TcpHeader, TcpSegment, header_length}
use cs144_labs.Wire.Parser.{ParseResult, unparse_int}
use cs144_labs.Wire.Checksum.{add, checksum_from, value}
use cs144_labs.Wire.Tcp.{
  fields, flags_of, serialize, parse_segment, serialize_with, serialize_segment,
}
use cs144_labs.Wire.Reading.{AllBytes, AllBytes-append, AllBytes-replicate}
use cs144_labs.Wire.Complement.{value_lem, value_complete}
use cs144_labs.Wire.Roundtrip.{Fits, parse-padded, fields-append, length-fields}
use cs144_labs.Wire.Weight.{weight, sum-add, weight_bound}

-- The header with a checksum.
abbrev pub with_cksum : TcpHeader → ℕ → TcpHeader
with_cksum h cksum = record h { cksum = cksum }

-- What the header adds to the sum, the checksum apart; it is not zero, since `doff` is not.
weight-fields :
    (h : TcpHeader) (rest : List ℕ) (cksum : ℕ)
    → Fits h
    → 5 ≤ h.doff
    → cksum < 2 ^ 16
    → (weight false (fields (with_cksum h cksum) rest)
        ≡ weight false (fields (with_cksum h 0) rest) + cksum)
      × (0 < weight false (fields (with_cksum h 0) rest))
      × (weight false (fields (with_cksum h 0) rest) ≤ 65280 * 20 + weight false rest)
unfolding fields unparse_int weight flags_of
weight-fields h rest cksum f d k = (omega arith, omega (arith, f.doff_word), omega arith)

-- The bytes of a segment with a checksum.
abbrev pub segment_bytes : TcpSegment → ℕ → List ℕ
segment_bytes seg cksum =
    fields (with_cksum seg.header cksum) (replicate (seg.header.doff * 4 - header_length) 0)
    ++ seg.payload

serialize_with_lem :
    (seg : TcpSegment) (cksum : ℕ)
    → 5 ≤ seg.header.doff
    → serialize_with seg cksum ≡ some (segment_bytes seg cksum)
unfolding serialize
serialize_with_lem seg cksum d = rw (serialize_with, le→ltb seg.header.doff 5 d) refl

length-segment_bytes :
    (seg : TcpSegment) (cksum : ℕ)
    → 5 ≤ seg.header.doff
    → length (segment_bytes seg cksum) ≡ seg.header.doff * 4 + length seg.payload
length-segment_bytes seg cksum d =
    let pad : List ℕ = replicate (seg.header.doff * 4 - header_length) 0 in
    let head = fields (with_cksum seg.header cksum) pad in
    omega (
      arith,
      length-append head seg.payload,
      length-fields (with_cksum seg.header cksum) pad,
      length-replicate {A = ℕ} (seg.header.doff * 4 - header_length) 0,
    )

-- A segment that fits into a datagram.
pub record IsSendable (seg : TcpSegment) : Type 0 where
  pub fits : Fits seg.header
  pub doff_min : 5 ≤ seg.header.doff
  pub payload_bytes : AllBytes seg.payload
  pub size : seg.header.doff * 4 + length seg.payload < 2 ^ 16

-- The sum over a segment: that without checksum, and the checksum.
sum_bytes :
    (seg : TcpSegment) (cksum start : ℕ)
    → IsSendable seg
    → start < 2 ^ 20
    → cksum < 2 ^ 16
    → let blank = start + weight false (segment_bytes seg 0) in
      ((add (checksum_from start) (segment_bytes seg cksum)).sum ≡ blank + cksum)
      × (0 < blank)
      × (blank + 2 ^ 16 < 2 ^ 32)
sum_bytes seg cksum start s h k =
    let pad : List ℕ = replicate (seg.header.doff * 4 - header_length) 0 in
    let tail : List ℕ = pad ++ seg.payload in
    let (more, pos, bound) = weight-fields seg.header tail cksum s.fits s.doff_min k in
    let tail_bound = weight_bound false tail (
      AllBytes-append pad seg.payload (AllBytes-replicate (seg.header.doff * 4 - header_length))
        s.payload_bytes) in
    let e : weight false (segment_bytes seg cksum)
        ≡ weight false (fields (with_cksum seg.header cksum) tail) =
      ap (weight false) (fields-append (with_cksum seg.header cksum) pad seg.payload) in
    let e0 : weight false (segment_bytes seg 0)
        ≡ weight false (fields (with_cksum seg.header 0) tail) =
      ap (weight false) (fields-append (with_cksum seg.header 0) pad seg.payload) in
    let n = length-append pad seg.payload in
    let m = length-replicate {A = ℕ} (seg.header.doff * 4 - header_length) 0 in
    let d = s.doff_min in
    let z = s.size in
    let small : start + weight false (segment_bytes seg cksum) < 2 ^ 32 =
      omega (arith, e, e0, n, m, more, bound, tail_bound, d, z) in
    let sum : (add (checksum_from start) (segment_bytes seg cksum)).sum
        ≡ start + weight false (segment_bytes seg cksum) =
      sum-add (segment_bytes seg cksum) (checksum_from start) small in
    (
      omega (arith, sum, e, e0, more),
      omega (arith, e0, pos),
      omega (arith, e0, n, m, bound, tail_bound, d, z),
    )

-- The checksum that `serialize` writes, by the checksum of the pseudo header.
completed :
    (seg : TcpSegment) (start : ℕ)
    → IsSendable seg
    → start < 2 ^ 20
    → (cksum : ℕ) × (cksum < 2 ^ 16)
      × (value (add (checksum_from start) (segment_bytes seg 0)) ≡ some cksum)
      × (value (add (checksum_from start) (segment_bytes seg cksum)) ≡ some 0)
completed seg start s h =
    let (same0, pos, bound) = sum_bytes seg 0 start s h (omega arith) in
    let check = add (checksum_from start) (segment_bytes seg 0) in
    let (cksum, run, small, _) = value_lem check (omega arith) in
    let (same, _, _) = sum_bytes seg cksum start s h small in
    (
      cksum,
      small,
      run,
      value_complete check (add (checksum_from start) (segment_bytes seg cksum)) cksum (omega arith)
          (omega arith) run (omega arith),
    )

serialize_segment_lem :
    (seg : TcpSegment) (start cksum : ℕ)
    → 5 ≤ seg.header.doff
    → value (add (checksum_from start) (segment_bytes seg 0)) ≡ some cksum
    → serialize_segment seg start ≡ some (segment_bytes seg cksum)
unfolding serialize_segment
serialize_segment_lem seg start cksum d e =
    rw (serialize_segment, serialize_with_lem seg 0 d, e) (serialize_with_lem seg cksum d)

with_cksum-Fits : (h : TcpHeader) (cksum : ℕ) → Fits h → cksum < 2 ^ 16 → Fits (with_cksum h cksum)
with_cksum-Fits h cksum f k = record {
  sport_word = f.sport_word;
  dport_word = f.dport_word;
  seqno_word = f.seqno_word;
  ackno_word = f.ackno_word;
  doff_word = f.doff_word;
  win_word = f.win_word;
  cksum_word = k;
  uptr_word = f.uptr_word;
}

parse_segment_lem :
    (old seg : TcpSegment) (start cksum : ℕ)
    → Fits (with_cksum seg.header cksum)
    → 5 ≤ seg.header.doff
    → value (add (checksum_from start) (segment_bytes seg cksum)) ≡ some 0
    → parse_segment old (segment_bytes seg cksum) start
      ≡ some (record seg { header = with_cksum seg.header cksum }, ParseResult.no_error)
unfolding parse_segment
parse_segment_lem old seg start cksum f d e =
    rw (parse_segment, e, parse-padded (with_cksum seg.header cksum) seg.payload f d) refl

-- A segment that fits into a datagram is serialized with a checksum that makes it parse, by the same
-- checksum of the pseudo header, into the same segment with that checksum, whatever the segment held
-- that it is parsed into.
pub parse_segment-serialize_segment :
    (old seg : TcpSegment) (start : ℕ)
    → IsSendable seg
    → start < 2 ^ 20
    → (cksum : ℕ) × (bytes : List ℕ) × (serialize_segment seg start ≡ some bytes)
      × (length bytes ≡ seg.header.doff * 4 + length seg.payload)
      × (parse_segment old bytes start
          ≡ some (record seg { header = with_cksum seg.header cksum }, ParseResult.no_error))
parse_segment-serialize_segment old seg start s h =
    let (cksum, small, filled, checks) = completed seg start s h in
    (
      cksum,
      segment_bytes seg cksum,
      serialize_segment_lem seg start cksum s.doff_min filled,
      length-segment_bytes seg cksum s.doff_min,
      parse_segment_lem old seg start cksum (with_cksum-Fits seg.header cksum s.fits small)
          s.doff_min checks,
    )
