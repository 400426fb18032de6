-- ===== src/Wire/Headers.antt =====
-- The fields of the IPv4 header: what is written is read back.
use cs144_labs.Prelude.{
  ℕ, ◌+◌, ◌-◌, ◌*◌, ◌/◌, ◌%◌, ◌^◌, ◌≤◌, ◌<◌, ◌≡◌, refl, List, ◌++◌, arith, length, replicate,
  length-replicate,
}
use mathlib.Core.List.{append_assoc}
use cs144_labs.Wire.Parser.{parser_of, unparse_int}
use cs144_labs.Wire.Tcp.{bit, flag}
use cs144_labs.Wire.Ip.{Ipv4Header, header_length, finish, parse_fields, fields}
use cs144_labs.Wire.Reading.{u8-unparse_int, u16-unparse_int, u32-unparse_int}

-- The fields fit their bits, and the version is 4.
pub record Fits (h : Ipv4Header) : Type 0 where
  pub ver_word : h.ver ≡ 4
  pub hlen_word : h.hlen < 2 ^ 4
  pub hlen_min : 5 ≤ h.hlen
  pub tos_byte : h.tos < 2 ^ 8
  pub len_word : h.len < 2 ^ 16
  pub id_word : h.id < 2 ^ 16
  pub offset_word : h.offset < 2 ^ 13
  pub ttl_byte : h.ttl < 2 ^ 8
  pub proto_byte : h.proto < 2 ^ 8
  pub cksum_word : h.cksum < 2 ^ 16
  pub src_word : h.src < 2 ^ 32
  pub dst_word : h.dst < 2 ^ 32

-- The flags and the fragment offset, as they are written.
abbrev fragment_of : Ipv4Header → ℕ
fragment_of h = flag h.df (2 ^ 14) + flag h.mf (2 ^ 13) + h.offset % 2 ^ 13

fragment_word : (h : Ipv4Header) → Fits h → fragment_of h < 2 ^ 16
fragment_word h f = ground arith

bit_df : (h : Ipv4Header) → bit (2 ^ 14) (fragment_of h) ≡ h.df
bit_df h = ground arith

bit_mf : (h : Ipv4Header) → bit (2 ^ 13) (fragment_of h) ≡ h.mf
bit_mf h = ground arith

offset_back : (h : Ipv4Header) → h.offset < 2 ^ 13 → fragment_of h % 2 ^ 13 ≡ h.offset
offset_back h k = ground arith

-- The header that comes out of the numbers that were written.
abbrev pub read_back : Ipv4Header → Ipv4Header
read_back h = record h {
  ver = ((h.ver * 2 ^ 4) % 2 ^ 8 + h.hlen % 2 ^ 4) / 2 ^ 4;
  hlen = ((h.ver * 2 ^ 4) % 2 ^ 8 + h.hlen % 2 ^ 4) % 2 ^ 4;
  df = bit (2 ^ 14) (fragment_of h);
  mf = bit (2 ^ 13) (fragment_of h);
  offset = fragment_of h % 2 ^ 13;
}

pub read_back_same : (h : Ipv4Header) → Fits h → read_back h ≡ h
read_back_same h f =
    let v : ((h.ver * 2 ^ 4) % 2 ^ 8 + h.hlen % 2 ^ 4) / 2 ^ 4 ≡ h.ver =
      omega (arith, f.ver_word, f.hlen_word) in
    let l : ((h.ver * 2 ^ 4) % 2 ^ 8 + h.hlen % 2 ^ 4) % 2 ^ 4 ≡ h.hlen =
      omega (arith, f.ver_word, f.hlen_word) in
    rw (v, l, bit_df h, bit_mf h, offset_back h f.offset_word) refl

pub parse-fields :
    (h : Ipv4Header) (rest : List ℕ)
    → Fits h
    → parse_fields (parser_of (fields h rest))
      ≡ finish (read_back h) (fields h rest) (parser_of rest)
unfolding parse_fields fields
parse-fields h rest f = rw (
  u8-unparse_int ((h.ver * 2 ^ 4) % 2 ^ 8 + h.hlen % 2 ^ 4)
      (unparse_int 1 h.tos
        ++ (unparse_int 2 h.len
            ++ (unparse_int 2 h.id
                ++ (unparse_int 2 (fragment_of h)
                    ++ (unparse_int 1 h.ttl
                        ++ (unparse_int 1 h.proto
                            ++ (unparse_int 2 h.cksum
                                ++ (unparse_int 4 h.src ++ (unparse_int 4 h.dst ++ rest)))))))))
      (omega (arith, f.ver_word)),
  u8-unparse_int h.tos
      (unparse_int 2 h.len
        ++ (unparse_int 2 h.id
            ++ (unparse_int 2 (fragment_of h)
                ++ (unparse_int 1 h.ttl
                    ++ (unparse_int 1 h.proto
                        ++ (unparse_int 2 h.cksum
                            ++ (unparse_int 4 h.src ++ (unparse_int 4 h.dst ++ rest))))))))
      f.tos_byte,
  u16-unparse_int h.len
      (unparse_int 2 h.id
        ++ (unparse_int 2 (fragment_of h)
            ++ (unparse_int 1 h.ttl
                ++ (unparse_int 1 h.proto
                    ++ (unparse_int 2 h.cksum
                        ++ (unparse_int 4 h.src ++ (unparse_int 4 h.dst ++ rest)))))))
      f.len_word,
  u16-unparse_int h.id
      (unparse_int 2 (fragment_of h)
        ++ (unparse_int 1 h.ttl
            ++ (unparse_int 1 h.proto
                ++ (unparse_int 2 h.cksum
                    ++ (unparse_int 4 h.src ++ (unparse_int 4 h.dst ++ rest))))))
      f.id_word,
  u16-unparse_int (fragment_of h)
      (unparse_int 1 h.ttl
        ++ (unparse_int 1 h.proto
            ++ (unparse_int 2 h.cksum ++ (unparse_int 4 h.src ++ (unparse_int 4 h.dst ++ rest)))))
      (fragment_word h f),
  u8-unparse_int h.ttl
      (unparse_int 1 h.proto
        ++ (unparse_int 2 h.cksum ++ (unparse_int 4 h.src ++ (unparse_int 4 h.dst ++ rest))))
      f.ttl_byte,
  u8-unparse_int h.proto
      (unparse_int 2 h.cksum ++ (unparse_int 4 h.src ++ (unparse_int 4 h.dst ++ rest)))
      f.proto_byte,
  u16-unparse_int h.cksum (unparse_int 4 h.src ++ (unparse_int 4 h.dst ++ rest)) f.cksum_word,
  u32-unparse_int h.src (unparse_int 4 h.dst ++ rest) f.src_word,
  u32-unparse_int h.dst rest f.dst_word,
)

pub length-fields : (h : Ipv4Header) (rest : List ℕ) → length (fields h rest) ≡ 20 + length rest
unfolding fields unparse_int
length-fields h rest = omega arith

pub fields-append :
    (h : Ipv4Header) (pad rest : List ℕ) → fields h pad ++ rest ≡ fields h (pad ++ rest)
unfolding fields
fields-append h pad rest = simp append_assoc

-- The header with a checksum, its padding, and its bytes.
abbrev pub with_cksum : Ipv4Header → ℕ → Ipv4Header
with_cksum h cksum = record h { cksum = cksum }

abbrev pub padding : Ipv4Header → List ℕ
padding h = replicate (4 * h.hlen - header_length) 0

abbrev pub header_bytes : Ipv4Header → ℕ → List ℕ
header_bytes h cksum = fields (with_cksum h cksum) (padding h)

pub with_cksum-Fits :
    (h : Ipv4Header) (cksum : ℕ) → Fits h → cksum < 2 ^ 16 → Fits (with_cksum h cksum)
with_cksum-Fits h cksum f k = record {
  ver_word = f.ver_word;
  hlen_word = f.hlen_word;
  hlen_min = f.hlen_min;
  tos_byte = f.tos_byte;
  len_word = f.len_word;
  id_word = f.id_word;
  offset_word = f.offset_word;
  ttl_byte = f.ttl_byte;
  proto_byte = f.proto_byte;
  cksum_word = k;
  src_word = f.src_word;
  dst_word = f.dst_word;
}

pub length-header_bytes :
    (h : Ipv4Header) (cksum : ℕ) → 5 ≤ h.hlen → length (header_bytes h cksum) ≡ 4 * h.hlen
length-header_bytes h cksum k = omega (
  arith,
  length-fields (with_cksum h cksum) (padding h),
  length-replicate {A = ℕ} (4 * h.hlen - header_length) 0,
)
