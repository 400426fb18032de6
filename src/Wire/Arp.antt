-- ===== src/Wire/Arp.antt =====
-- `ARPMessage` of libsponge/tcp_helpers/arp_message.hh and arp_message.cc.
use cs144_labs.Prelude.{
  ℕ, Bool, not, ◌&&◌, ◌||◌, Option, none, some, List, ◌++◌, if◌then◌else◌, ltb, ◌==◌, length,
}
use cs144_labs.Wire.Parser.{ParseResult, NetParser, parser_of, u8, u16, u32, unparse_int}
use cs144_labs.Wire.Ethernet.{read_bytes, write_bytes, address_size, type_ipv4}

pub record ArpMessage : Type 0 where
  pub hardware_type : ℕ
  pub protocol_type : ℕ
  pub hardware_address_size : ℕ
  pub protocol_address_size : ℕ
  pub opcode : ℕ
  pub sender_ethernet_address : List ℕ
  pub sender_ip_address : ℕ
  pub target_ethernet_address : List ℕ
  pub target_ip_address : ℕ

-- `ARPMessage::LENGTH`
abbrev pub message_length : ℕ
message_length = 28

abbrev pub type_ethernet : ℕ
type_ethernet = 1

abbrev pub opcode_request : ℕ
opcode_request = 1

abbrev pub opcode_reply : ℕ
opcode_reply = 2

-- `sizeof(IPv4Header::src)`
abbrev pub ip_size : ℕ
ip_size = 4

unfoldable pub supported : ArpMessage → Bool
supported m =
    (m.hardware_type == type_ethernet)
    && ((m.protocol_type == type_ipv4)
        && ((m.hardware_address_size == address_size)
            && ((m.protocol_address_size == ip_size)
                && ((m.opcode == opcode_request) || (m.opcode == opcode_reply)))))

-- The addresses, which are read if the message is supported.
unfoldable pub parse_addresses : ArpMessage → NetParser → ArpMessage × ParseResult
parse_addresses m p =
    let (sender, p1) = read_bytes address_size p in
    let (sender_ip, p2) = u32 p1 in
    let (target, p3) = read_bytes address_size p2 in
    let (target_ip, p4) = u32 p3 in
    if not (supported m) then (m, ParseResult.unsupported) else (
      record m {
        sender_ethernet_address = sender;
        sender_ip_address = sender_ip;
        target_ethernet_address = target;
        target_ip_address = target_ip;
      },
      p4.error,
    )

unfoldable pub parse_fields : ArpMessage → NetParser → ArpMessage × ParseResult
parse_fields old p =
    let (hardware, p1) = u16 p in
    let (protocol, p2) = u16 p1 in
    let (hardware_size, p3) = u8 p2 in
    let (protocol_size, p4) = u8 p3 in
    let (opcode, p5) = u16 p4 in
    parse_addresses
      (record old {
        hardware_type = hardware;
        protocol_type = protocol;
        hardware_address_size = hardware_size;
        protocol_address_size = protocol_size;
        opcode = opcode;
      })
      p5

-- A parse into a message that holds `old`.
unfoldable pub parse : ArpMessage → List ℕ → ArpMessage × ParseResult
parse old buffer =
    if ltb (length buffer) message_length
    then (old, ParseResult.packet_too_short)
    else parse_fields old (parser_of buffer)

unfoldable pub fields : ArpMessage → List ℕ
fields m =
    unparse_int 2 m.hardware_type
    ++ (unparse_int 2 m.protocol_type
        ++ (unparse_int 1 m.hardware_address_size
            ++ (unparse_int 1 m.protocol_address_size
                ++ (unparse_int 2 m.opcode
                    ++ (write_bytes m.sender_ethernet_address
                        ++ (unparse_int 4 m.sender_ip_address
                            ++ (write_bytes m.target_ethernet_address
                                ++ unparse_int 4 m.target_ip_address)))))))

-- `none` is the exception of a message that is not supported.
unfoldable pub serialize : ArpMessage → Option (List ℕ)
serialize m = if not (supported m) then none else some (fields m)
