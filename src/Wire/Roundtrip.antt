-- ===== src/Wire/Roundtrip.antt =====
-- `serialize` and `parse` of the TCP header.
use cs144_labs.Prelude.{
  ℕ, ◌+◌, ◌-◌, ◌*◌, ◌/◌, ◌%◌, ◌^◌, ◌≤◌, ◌<◌, ◌≡◌, refl, sym, ap, ◌∙◌, none, some, List, ◌++◌, arith,
  le→ltb, if_false, length, replicate, length-replicate,
}
use mathlib.Core.List.{append_assoc}
use cs144_labs.Segment.{TcpHeader, header_length}
use cs144_labs.Wire.Parser.{ParseResult, parser_of, unparse_int, remove_prefix}
use cs144_labs.Wire.Tcp.{bit, finish, parse, flags_of, fields, serialize}
use cs144_labs.Wire.Reading.{u8-unparse_int, u16-unparse_int, u32-unparse_int, remove_prefix-append}

-- The fields fit their bits.
pub record Fits (h : TcpHeader) : Type 0 where
  pub sport_word : h.sport < 2 ^ 16
  pub dport_word : h.dport < 2 ^ 16
  pub seqno_word : h.seqno < 2 ^ 32
  pub ackno_word : h.ackno < 2 ^ 32
  pub doff_word : h.doff < 2 ^ 4
  pub win_word : h.win < 2 ^ 16
  pub cksum_word : h.cksum < 2 ^ 16
  pub uptr_word : h.uptr < 2 ^ 16

flags_word : (h : TcpHeader) → flags_of h < 2 ^ 8
unfolding flags_of
flags_word h = ground arith

bit_urg : (h : TcpHeader) → bit 32 (flags_of h) ≡ h.urg
unfolding flags_of
bit_urg h = ground arith

bit_ack : (h : TcpHeader) → bit 16 (flags_of h) ≡ h.ack
unfolding flags_of
bit_ack h = ground arith

bit_psh : (h : TcpHeader) → bit 8 (flags_of h) ≡ h.psh
unfolding flags_of
bit_psh h = ground arith

bit_rst : (h : TcpHeader) → bit 4 (flags_of h) ≡ h.rst
unfolding flags_of
bit_rst h = ground arith

bit_syn : (h : TcpHeader) → bit 2 (flags_of h) ≡ h.syn
unfolding flags_of
bit_syn h = ground arith

bit_fin : (h : TcpHeader) → bit 1 (flags_of h) ≡ h.fin
unfolding flags_of
bit_fin h = ground arith

-- The header that comes out of the numbers that were written.
abbrev read_back : TcpHeader → TcpHeader
read_back h = record {
  sport = h.sport;
  dport = h.dport;
  seqno = h.seqno;
  ackno = h.ackno;
  doff = ((h.doff * 2 ^ 4) % 2 ^ 8) / 2 ^ 4;
  urg = bit 32 (flags_of h);
  ack = bit 16 (flags_of h);
  psh = bit 8 (flags_of h);
  rst = bit 4 (flags_of h);
  syn = bit 2 (flags_of h);
  fin = bit 1 (flags_of h);
  win = h.win;
  cksum = h.cksum;
  uptr = h.uptr;
}

read_back_same : (h : TcpHeader) → Fits h → read_back h ≡ h
read_back_same h f =
    let d : ((h.doff * 2 ^ 4) % 2 ^ 8) / 2 ^ 4 ≡ h.doff = omega (arith, f.doff_word) in
    rw (d, bit_urg h, bit_ack h, bit_psh h, bit_rst h, bit_syn h, bit_fin h) refl

parse-fields :
    (h : TcpHeader) (rest : List ℕ)
    → Fits h
    → parse (parser_of (fields h rest)) ≡ finish (read_back h) (parser_of rest)
unfolding parse fields
parse-fields h rest f = rw (
  u16-unparse_int h.sport
      (unparse_int 2 h.dport
        ++ (unparse_int 4 h.seqno
            ++ (unparse_int 4 h.ackno
                ++ (unparse_int 1 ((h.doff * 2 ^ 4) % 2 ^ 8)
                    ++ (unparse_int 1 (flags_of h)
                        ++ (unparse_int 2 h.win
                            ++ (unparse_int 2 h.cksum ++ (unparse_int 2 h.uptr ++ rest))))))))
      f.sport_word,
  u16-unparse_int h.dport
      (unparse_int 4 h.seqno
        ++ (unparse_int 4 h.ackno
            ++ (unparse_int 1 ((h.doff * 2 ^ 4) % 2 ^ 8)
                ++ (unparse_int 1 (flags_of h)
                    ++ (unparse_int 2 h.win
                        ++ (unparse_int 2 h.cksum ++ (unparse_int 2 h.uptr ++ rest)))))))
      f.dport_word,
  u32-unparse_int h.seqno
      (unparse_int 4 h.ackno
        ++ (unparse_int 1 ((h.doff * 2 ^ 4) % 2 ^ 8)
            ++ (unparse_int 1 (flags_of h)
                ++ (unparse_int 2 h.win
                    ++ (unparse_int 2 h.cksum ++ (unparse_int 2 h.uptr ++ rest))))))
      f.seqno_word,
  u32-unparse_int h.ackno
      (unparse_int 1 ((h.doff * 2 ^ 4) % 2 ^ 8)
        ++ (unparse_int 1 (flags_of h)
            ++ (unparse_int 2 h.win ++ (unparse_int 2 h.cksum ++ (unparse_int 2 h.uptr ++ rest)))))
      f.ackno_word,
  u8-unparse_int ((h.doff * 2 ^ 4) % 2 ^ 8)
      (unparse_int 1 (flags_of h)
        ++ (unparse_int 2 h.win ++ (unparse_int 2 h.cksum ++ (unparse_int 2 h.uptr ++ rest))))
      (omega arith),
  u8-unparse_int (flags_of h)
      (unparse_int 2 h.win ++ (unparse_int 2 h.cksum ++ (unparse_int 2 h.uptr ++ rest)))
      (flags_word h),
  u16-unparse_int h.win (unparse_int 2 h.cksum ++ (unparse_int 2 h.uptr ++ rest)) f.win_word,
  u16-unparse_int h.cksum (unparse_int 2 h.uptr ++ rest) f.cksum_word,
  u16-unparse_int h.uptr rest f.uptr_word,
)

pub length-fields : (h : TcpHeader) (rest : List ℕ) → length (fields h rest) ≡ 20 + length rest
unfolding fields unparse_int
length-fields h rest = omega arith

pub fields-append :
    (h : TcpHeader) (pad rest : List ℕ) → fields h pad ++ rest ≡ fields h (pad ++ rest)
unfolding fields
fields-append h pad rest = simp append_assoc

-- The header is skipped to the end of its padding.
finish_lem :
    (h : TcpHeader) (rest : List ℕ)
    → 5 ≤ h.doff
    → finish h (parser_of (replicate (h.doff * 4 - header_length) 0 ++ rest))
      ≡ record { header = h; parser = parser_of rest; result = ParseResult.no_error }
unfolding finish
finish_lem h rest k =
    let skip = remove_prefix-append (replicate (h.doff * 4 - header_length) 0) rest in
    let n = length-replicate (h.doff * 4 - header_length) 0 in
    if_false _ _ (le→ltb h.doff 5 k)
    ∙ ap (λ p. record { header = h; parser = p; result = p.error })
        (ap (remove_prefix (parser_of (replicate (h.doff * 4 - header_length) 0 ++ rest))) (sym n)
          ∙ skip)

-- The parse of the bytes of a header, with its padding, and what follows.
pub parse-padded :
    (h : TcpHeader) (rest : List ℕ)
    → Fits h
    → 5 ≤ h.doff
    → parse (parser_of (fields h (replicate (h.doff * 4 - header_length) 0) ++ rest))
      ≡ record { header = h; parser = parser_of rest; result = ParseResult.no_error }
parse-padded h rest f k =
    let pad = replicate (h.doff * 4 - header_length) 0 in
    ap (λ t. parse (parser_of t)) (fields-append h pad rest)
    ∙ parse-fields h (pad ++ rest) f
    ∙ ap (λ t. finish t (parser_of (pad ++ rest))) (read_back_same h f)
    ∙ finish_lem h rest k

-- A header whose fields fit, and whose length is at least the minimum, is serialized, and what follows
-- its bytes is left when they are parsed into the same header.
pub parse-serialize :
    (h : TcpHeader) (rest : List ℕ)
    → Fits h
    → 5 ≤ h.doff
    → (bytes : List ℕ) × (serialize h ≡ some bytes)
      × (length bytes ≡ h.doff * 4)
      × (parse (parser_of (bytes ++ rest))
          ≡ record { header = h; parser = parser_of rest; result = ParseResult.no_error })
unfolding serialize
parse-serialize h rest f k =
    let pad = replicate (h.doff * 4 - header_length) 0 in
    (
      fields h pad,
      if_false none (some (fields h pad)) (le→ltb h.doff 5 k),
      omega (arith, length-fields h pad, length-replicate {A = ℕ} (h.doff * 4 - header_length) 0),
      parse-padded h rest f k,
    )
