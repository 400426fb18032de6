-- ===== src/Wire/Frames.antt =====
-- `serialize` and `parse` of Ethernet frames.
use cs144_labs.Prelude.{
  ℕ, ◌+◌, ◌^◌, ◌<◌, ◌≡◌, refl, ap, ◌∙◌, List, ◌++◌, arith, le→ltb, ltb, false, length,
  length-append,
}
use mathlib.Core.List.{append_assoc}
use cs144_labs.Wire.Parser.{ParseResult, parser_of, unparse_int}
use cs144_labs.Wire.Ethernet.{
  EthernetHeader, EthernetFrame, header_length, write_bytes, parse, serialize, parse_frame,
  serialize_frame,
}
use cs144_labs.Wire.Reading.{u16-unparse_int, length-unparse_int}
use cs144_labs.Wire.Messages.{IsAddress, read_address, length-write_bytes}

-- The fields of a header fit.
pub record Fits (h : EthernetHeader) : Type 0 where
  pub dst_address : IsAddress h.dst
  pub src_address : IsAddress h.src
  pub type_word : h.type < 2 ^ 16

-- The bytes of a header and what follows.
abbrev written : EthernetHeader → List ℕ → List ℕ
written h rest = write_bytes h.dst ++ (write_bytes h.src ++ (unparse_int 2 h.type ++ rest))

serialize-append : (h : EthernetHeader) (rest : List ℕ) → serialize h ++ rest ≡ written h rest
unfolding serialize
serialize-append h rest = simp append_assoc

length-written :
    (h : EthernetHeader) (rest : List ℕ)
    → Fits h
    → length (written h rest) ≡ header_length + length rest
length-written h rest f =
    let tail : List ℕ = unparse_int 2 h.type ++ rest in
    omega (
      arith,
      length-append (write_bytes h.dst) (write_bytes h.src ++ tail),
      length-append (write_bytes h.src) tail,
      length-append (unparse_int 2 h.type) rest,
      length-unparse_int 2 h.type,
      length-write_bytes h.dst,
      length-write_bytes h.src,
      f.dst_address.size,
      f.src_address.size,
    )

parse-written :
    (old h : EthernetHeader) (rest : List ℕ)
    → Fits h
    → parse old (parser_of (written h rest))
      ≡ record { header = h; parser = parser_of rest; result = ParseResult.no_error }
unfolding parse
parse-written old h rest f =
    let long : ltb (length (written h rest)) header_length ≡ false =
      le→ltb _ _ (omega (arith, length-written h rest f)) in
    rw
      (
        long,
        read_address h.dst (write_bytes h.src ++ (unparse_int 2 h.type ++ rest)) f.dst_address,
        read_address h.src (unparse_int 2 h.type ++ rest) f.src_address,
        u16-unparse_int h.type rest f.type_word,
      )
      refl

-- A frame with addresses of six bytes and a type of 16 bits is serialized to its header and its payload,
-- and these bytes parse into the same frame, whatever the frame held that they are parsed into.
pub parse_frame-serialize_frame :
    (old frame : EthernetFrame)
    → Fits frame.header
    → (length (serialize_frame frame) ≡ header_length + length frame.payload)
      × (parse_frame old (serialize_frame frame) ≡ (frame, ParseResult.no_error))
unfolding parse_frame serialize_frame
parse_frame-serialize_frame old frame f =
    let joined = serialize-append frame.header frame.payload in
    (
      ap length joined ∙ length-written frame.header frame.payload f,
      ap (parse_frame old) joined
          ∙ rw (parse_frame, parse-written old.header frame.header frame.payload f) refl,
    )
