-- ===== src/Wire/Messages.antt =====
-- `serialize` and `parse` of ARP messages.
use cs144_labs.Prelude.{
  ℕ, ◌^◌, ◌<◌, ◌≡◌, refl, sym, ap, ◌∙◌, true, false, none, some, List, [], ◌∷◌, ◌++◌, arith, le→ltb,
  if_false, length, length-append,
}
use mathlib.Core.List.{append_assoc, append-nil}
use cs144_labs.Wire.Parser.{ParseResult, parser_of, unparse_int}
use cs144_labs.Wire.Ethernet.{read_bytes, write_bytes, address_size}
use cs144_labs.Wire.Arp.{
  ArpMessage, supported, parse_addresses, parse_fields, parse, fields, serialize, message_length,
}
use cs144_labs.Wire.Reading.{
  AllBytes, u8-unparse_int, u16-unparse_int, u32-unparse_int, length-unparse_int,
}

pub record IsAddress (a : List ℕ) : Type 0 where
  pub size : length a ≡ address_size
  pub bytes : AllBytes a

read_bytes-write_bytes :
    (a rest : List ℕ)
    → AllBytes a
    → read_bytes (length a) (parser_of (write_bytes a ++ rest)) ≡ (a, parser_of rest)
unfolding read_bytes write_bytes AllBytes
read_bytes-write_bytes [] rest h = refl
read_bytes-write_bytes (b ∷ bs) rest h =
    rw (append_assoc (unparse_int 1 b) (write_bytes bs) rest)
      (rw (u8-unparse_int b (write_bytes bs ++ rest) h.0, read_bytes-write_bytes bs rest h.1) refl)

pub read_address :
    (a rest : List ℕ)
    → IsAddress a
    → read_bytes address_size (parser_of (write_bytes a ++ rest)) ≡ (a, parser_of rest)
read_address a rest h =
    ap (λ n. read_bytes n (parser_of (write_bytes a ++ rest))) (sym h.size)
    ∙ read_bytes-write_bytes a rest h.bytes

pub length-write_bytes : (a : List ℕ) → length (write_bytes a) ≡ length a
unfolding write_bytes
length-write_bytes [] = refl
length-write_bytes (b ∷ bs) = omega (
  arith,
  length-append (unparse_int 1 b) (write_bytes bs),
  length-unparse_int 1 b,
  length-write_bytes bs,
)

-- The fields of an ARP message fit their bits.
pub record Fits (m : ArpMessage) : Type 0 where
  pub hardware_word : m.hardware_type < 2 ^ 16
  pub protocol_word : m.protocol_type < 2 ^ 16
  pub hardware_byte : m.hardware_address_size < 2 ^ 8
  pub protocol_byte : m.protocol_address_size < 2 ^ 8
  pub opcode_word : m.opcode < 2 ^ 16
  pub sender_address : IsAddress m.sender_ethernet_address
  pub sender_word : m.sender_ip_address < 2 ^ 32
  pub target_address : IsAddress m.target_ethernet_address
  pub target_word : m.target_ip_address < 2 ^ 32

-- The addresses, as they are written.
abbrev addresses : ArpMessage → List ℕ → List ℕ
addresses m rest =
    write_bytes m.sender_ethernet_address
    ++ (unparse_int 4 m.sender_ip_address
        ++ (write_bytes m.target_ethernet_address ++ (unparse_int 4 m.target_ip_address ++ rest)))

-- A message with the numbers of `m` before the addresses.
abbrev headed : ArpMessage → ArpMessage → ArpMessage
headed old m = record old {
  hardware_type = m.hardware_type;
  protocol_type = m.protocol_type;
  hardware_address_size = m.hardware_address_size;
  protocol_address_size = m.protocol_address_size;
  opcode = m.opcode;
}

supported-headed : (old m : ArpMessage) → supported (headed old m) ≡ supported m
unfolding supported
supported-headed old m = refl

parse_addresses_lem :
    (old m : ArpMessage)
    → Fits m
    → supported m ≡ true
    → parse_addresses (headed old m) (parser_of (addresses m [])) ≡ (m, ParseResult.no_error)
unfolding parse_addresses
parse_addresses_lem old m f e =
    rw
      (
        read_address m.sender_ethernet_address
            (unparse_int 4 m.sender_ip_address
              ++ (write_bytes m.target_ethernet_address
                  ++ (unparse_int 4 m.target_ip_address ++ [])))
            f.sender_address,
        u32-unparse_int m.sender_ip_address
            (write_bytes m.target_ethernet_address ++ (unparse_int 4 m.target_ip_address ++ []))
            f.sender_word,
        read_address m.target_ethernet_address (unparse_int 4 m.target_ip_address ++ [])
            f.target_address,
        u32-unparse_int m.target_ip_address [] f.target_word,
        supported-headed old m,
        e,
      )
      refl

-- The whole message, with the addresses.
abbrev written : ArpMessage → List ℕ
written m =
    unparse_int 2 m.hardware_type
    ++ (unparse_int 2 m.protocol_type
        ++ (unparse_int 1 m.hardware_address_size
            ++ (unparse_int 1 m.protocol_address_size
                ++ (unparse_int 2 m.opcode ++ addresses m []))))

parse_fields_lem :
    (old m : ArpMessage)
    → Fits m
    → parse_fields old (parser_of (written m))
      ≡ parse_addresses (headed old m) (parser_of (addresses m []))
unfolding parse_fields
parse_fields_lem old m f = rw (
  u16-unparse_int m.hardware_type
      (unparse_int 2 m.protocol_type
        ++ (unparse_int 1 m.hardware_address_size
            ++ (unparse_int 1 m.protocol_address_size
                ++ (unparse_int 2 m.opcode ++ addresses m []))))
      f.hardware_word,
  u16-unparse_int m.protocol_type
      (unparse_int 1 m.hardware_address_size
        ++ (unparse_int 1 m.protocol_address_size ++ (unparse_int 2 m.opcode ++ addresses m [])))
      f.protocol_word,
  u8-unparse_int m.hardware_address_size
      (unparse_int 1 m.protocol_address_size ++ (unparse_int 2 m.opcode ++ addresses m []))
      f.hardware_byte,
  u8-unparse_int m.protocol_address_size (unparse_int 2 m.opcode ++ addresses m []) f.protocol_byte,
  u16-unparse_int m.opcode (addresses m []) f.opcode_word,
)

fields-written : (m : ArpMessage) → fields m ≡ written m
unfolding fields
fields-written m =
    let last = sym (append-nil (unparse_int 4 m.target_ip_address)) in
    ap
      (λ t.
        unparse_int 2 m.hardware_type
        ++ (unparse_int 2 m.protocol_type
            ++ (unparse_int 1 m.hardware_address_size
                ++ (unparse_int 1 m.protocol_address_size
                    ++ (unparse_int 2 m.opcode
                        ++ (write_bytes m.sender_ethernet_address
                            ++ (unparse_int 4 m.sender_ip_address
                                ++ (write_bytes m.target_ethernet_address ++ t))))))))
      last

length-addresses : (m : ArpMessage) → Fits m → length (addresses m []) ≡ 20
length-addresses m f =
    let sender = m.sender_ethernet_address in
    let target = m.target_ethernet_address in
    let tail : List ℕ = unparse_int 4 m.target_ip_address ++ [] in
    omega (
      arith,
      length-append (write_bytes sender)
          (unparse_int 4 m.sender_ip_address ++ (write_bytes target ++ tail)),
      length-append (unparse_int 4 m.sender_ip_address) (write_bytes target ++ tail),
      length-append (write_bytes target) tail,
      length-append {A = ℕ} (unparse_int 4 m.target_ip_address) [],
      length-write_bytes sender,
      length-write_bytes target,
      length-unparse_int 4 m.sender_ip_address,
      length-unparse_int 4 m.target_ip_address,
      f.sender_address.size,
      f.target_address.size,
    )

length-written : (m : ArpMessage) → Fits m → length (written m) ≡ message_length
unfolding unparse_int
length-written m f = omega (arith, length-addresses m f)

-- A supported message whose fields fit is serialized to 28 bytes, which parse into the same message
-- whatever the message held that they are parsed into; one that is not supported is refused.
pub parse-serialize_arp :
    (old m : ArpMessage)
    → Fits m
    → (supported m ≡ true
        → (bytes : List ℕ) × (serialize m ≡ some bytes)
          × (length bytes ≡ message_length)
          × (parse old bytes ≡ (m, ParseResult.no_error)))
      × (supported m ≡ false → serialize m ≡ none)
unfolding serialize parse
parse-serialize_arp old m f = (
  λ e. (
    written m,
    rw e (ap some (fields-written m)),
    length-written m f,
    if_false _ _ (le→ltb (length (written m)) message_length (omega (arith, length-written m f)))
        ∙ parse_fields_lem old m f
        ∙ parse_addresses_lem old m f e,
  ),
  λ e. rw e refl,
)
