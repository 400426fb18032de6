-- ===== src/Wire/Datagrams.antt =====
-- `serialize` and `parse` of IPv4 datagrams, the checksum of the header included.
use cs144_labs.Prelude.{
  ℕ, ◌+◌, ◌-◌, ◌*◌, ◌^◌, ◌≤◌, ◌<◌, ◌≡◌, refl, sym, ap, ap₂, ◌∙◌, false, some, List, ◌++◌, arith,
  le→ltb, ltb, ◌==◌, true, if_false, length, take, length-append, length-replicate,
}
use cs144_labs.Wire.Parser.{ParseResult, parser_of, unparse_int, remove_prefix}
use cs144_labs.Wire.Checksum.{add, checksum_from, value}
use cs144_labs.Wire.Ip.{
  Ipv4Header, Ipv4Datagram, header_length, check_sum, finish, parse_fields, parse, fields,
  serialize, payload_length, parse_datagram, serialize_with, serialize_datagram,
}
use cs144_labs.Wire.Reading.{AllBytes-replicate, remove_prefix-append, take-append}
use cs144_labs.Wire.Complement.{value_lem, value_complete}
use cs144_labs.Wire.Weight.{weight, sum-add, weight_bound}
use cs144_labs.Wire.Headers.{
  Fits, read_back_same, parse-fields, fields-append, with_cksum, padding, header_bytes,
  with_cksum-Fits, length-header_bytes,
}

serialize_lem :
    (h : Ipv4Header) (cksum : ℕ)
    → Fits h
    → serialize (with_cksum h cksum) ≡ some (header_bytes h cksum)
unfolding serialize
serialize_lem h cksum f =
    let min = f.hlen_min in rw (f.ver_word, le→ltb (4 * h.hlen) header_length (omega arith)) refl

-- What the header adds to the sum, the checksum apart; it is not zero, since the version is not.
weight-fields :
    (h : Ipv4Header) (rest : List ℕ) (cksum : ℕ)
    → Fits h
    → cksum < 2 ^ 16
    → (weight false (fields (with_cksum h cksum) rest)
        ≡ weight false (fields (with_cksum h 0) rest) + cksum)
      × (0 < weight false (fields (with_cksum h 0) rest))
      × (weight false (fields (with_cksum h 0) rest) ≤ 65280 * 20 + weight false rest)
unfolding fields unparse_int weight
weight-fields h rest cksum f k = (omega arith, omega (arith, f.ver_word), omega arith)

-- The sum over a header: that without checksum, and the checksum.
sum_bytes :
    (h : Ipv4Header) (cksum : ℕ)
    → Fits h
    → cksum < 2 ^ 16
    → let blank = weight false (header_bytes h 0) in
      ((add (checksum_from 0) (header_bytes h cksum)).sum ≡ blank + cksum)
      × (0 < blank)
      × (blank + 2 ^ 16 < 2 ^ 32)
sum_bytes h cksum f k =
    let (more, pos, bound) = weight-fields h (padding h) cksum f k in
    let tail = weight_bound false (padding h) (AllBytes-replicate (4 * h.hlen - header_length)) in
    let n = length-replicate {A = ℕ} (4 * h.hlen - header_length) 0 in
    let hl = f.hlen_word in
    let sum =
      sum-add (header_bytes h cksum) (checksum_from 0) (omega (arith, more, bound, tail, n, hl)) in
    (omega (arith, sum, more), pos, omega (arith, bound, tail, n, hl))

-- The checksum that is written makes the header check as zero.
completed :
    (h : Ipv4Header)
    → Fits h
    → (cksum : ℕ) × (cksum < 2 ^ 16)
      × (value (add (checksum_from 0) (header_bytes h 0)) ≡ some cksum)
      × (value (add (checksum_from 0) (header_bytes h cksum)) ≡ some 0)
completed h f =
    let (same0, pos, bound) = sum_bytes h 0 f (omega arith) in
    let check = add (checksum_from 0) (header_bytes h 0) in
    let (cksum, run, small, _) = value_lem check (omega arith) in
    let (same, _, _) = sum_bytes h cksum f small in
    (
      cksum,
      small,
      run,
      value_complete check (add (checksum_from 0) (header_bytes h cksum)) cksum (omega arith)
          (omega arith) run (omega arith),
    )

check_sum_lem :
    (h : Ipv4Header) (cksum : ℕ) (payload : List ℕ)
    → 5 ≤ h.hlen
    → value (add (checksum_from 0) (header_bytes h cksum)) ≡ some 0
    → check_sum (with_cksum h cksum) (header_bytes h cksum ++ payload) ≡ ParseResult.no_error
unfolding check_sum
check_sum_lem h cksum payload k e =
    let whole : take (4 * h.hlen) (header_bytes h cksum ++ payload) ≡ header_bytes h cksum =
      ap (λ n. take n (header_bytes h cksum ++ payload)) (sym (length-header_bytes h cksum k))
      ∙ take-append (header_bytes h cksum) payload in
    rw (check_sum, whole, e) refl

-- What `parse` does after the fields of a datagram whose checksum is right.
finish_lem :
    (h : Ipv4Header) (original pad payload : List ℕ)
    → h.ver ≡ 4
    → 5 ≤ h.hlen
    → length original ≡ h.len
    → 4 * h.hlen ≤ h.len
    → length pad ≡ 4 * h.hlen - header_length
    → check_sum h original ≡ ParseResult.no_error
    → finish h original (parser_of (pad ++ payload))
      ≡ record { header = h; parser = parser_of payload; result = ParseResult.no_error }
unfolding finish
finish_lem h original pad payload v min size room n e =
    let long : ltb (length original) (4 * h.hlen) ≡ false = le→ltb _ _ (omega arith) in
    let five : ltb h.hlen 5 ≡ false = le→ltb _ _ min in
    let four : (h.ver == 4) ≡ true = ground arith in
    let exact : (length original == h.len) ≡ true = ground arith in
    let skip : remove_prefix (parser_of (pad ++ payload)) (h.hlen * 4 - header_length)
        ≡ parser_of payload =
      ap (remove_prefix (parser_of (pad ++ payload))) (omega arith)
      ∙ remove_prefix-append pad payload in
    rw (long, four, five, exact, skip, e) refl

-- A datagram whose fields fit and whose length is that of its header and its payload.
pub record IsSendable (d : Ipv4Datagram) : Type 0 where
  pub fits : Fits d.header
  pub size : d.header.len ≡ 4 * d.header.hlen + length d.payload

-- The parse of the bytes of a header with its checksum, and of what follows.
parse_bytes :
    (old h : Ipv4Header) (cksum : ℕ) (payload : List ℕ)
    → Fits h
    → cksum < 2 ^ 16
    → h.len ≡ 4 * h.hlen + length payload
    → value (add (checksum_from 0) (header_bytes h cksum)) ≡ some 0
    → parse old (parser_of (header_bytes h cksum ++ payload)) ≡ record {
      header = with_cksum h cksum;
      parser = parser_of payload;
      result = ParseResult.no_error;
    }
unfolding parse
parse_bytes old h cksum payload f k size e =
    let g = with_cksum-Fits h cksum f k in
    let all = length-append (header_bytes h cksum) payload in
    let n = length-header_bytes h cksum f.hlen_min in
    let joined = fields-append (with_cksum h cksum) (padding h) payload in
    let min = f.hlen_min in
    let long : ltb (length (header_bytes h cksum ++ payload)) header_length ≡ false =
      le→ltb _ _ (omega arith) in
    if_false _ _ long
    ∙ ap (λ t. parse_fields (parser_of t)) joined
    ∙ parse-fields (with_cksum h cksum) (padding h ++ payload) g
    ∙ ap₂ (λ t u. finish t u (parser_of (padding h ++ payload)))
        (read_back_same (with_cksum h cksum) g) (sym joined)
    ∙ finish_lem (with_cksum h cksum) (header_bytes h cksum ++ payload) (padding h) payload
        f.ver_word min (omega arith) (omega arith)
        (length-replicate {A = ℕ} (4 * h.hlen - header_length) 0)
        (check_sum_lem h cksum payload min e)

serialize_datagram_lem :
    (d : Ipv4Datagram) (cksum : ℕ)
    → IsSendable d
    → value (add (checksum_from 0) (header_bytes d.header 0)) ≡ some cksum
    → serialize_datagram d ≡ some (header_bytes d.header cksum ++ d.payload)
unfolding serialize_datagram
serialize_datagram_lem d cksum s e =
    let sized : (length d.payload == payload_length d.header) ≡ true =
      ground (arith, s.size, s.fits.len_word) in
    rw (serialize_datagram, sized, serialize_lem d.header 0 s.fits, e)
      (rw (serialize_with, serialize_lem d.header cksum s.fits) refl)

-- A datagram whose fields fit, of version 4, and whose length is that of its header and its payload, is
-- serialized to so many bytes, with a checksum that the parse of the header accepts. They parse, whatever
-- the datagram held that they are parsed into, to the same datagram with that checksum.
pub parse_datagram-serialize_datagram :
    (old d : Ipv4Datagram)
    → IsSendable d
    → (cksum : ℕ) × (bytes : List ℕ) × (serialize_datagram d ≡ some bytes)
      × (length bytes ≡ d.header.len)
      × ((parse old.header (parser_of bytes)).result ≡ ParseResult.no_error)
      × (parse_datagram old bytes
          ≡ (record d { header = with_cksum d.header cksum }, ParseResult.no_error))
unfolding parse_datagram
parse_datagram-serialize_datagram old d s =
    let (cksum, small, filled, checks) = completed d.header s.fits in
    let bytes = header_bytes d.header cksum ++ d.payload in
    let parsed = parse_bytes old.header d.header cksum d.payload s.fits small s.size checks in
    let sized : (length d.payload == payload_length (with_cksum d.header cksum)) ≡ true =
      ground (arith, s.size, s.fits.len_word) in
    (
      cksum,
      bytes,
      serialize_datagram_lem d cksum s filled,
      omega (
        arith,
        length-append (header_bytes d.header cksum) d.payload,
        length-header_bytes d.header cksum s.fits.hlen_min,
        s.size,
      ),
      ap (λ t. t.result) parsed,
      rw (parse_datagram, parsed, sized) refl,
    )
