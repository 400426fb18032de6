-- ===== src/Tests/Formats.antt =====
-- Runs of the formats on the wire.
use cs144_labs.Prelude.{
  ℕ, ◌+◌, ◌-◌, ◌*◌, ◌%◌, ◌^◌, ◌<◌, ◌≡◌, refl, true, false, none, some, List, [], ◌∷◌, ◌++◌, arith,
  length,
}
use cs144_labs.Segment.{TcpHeader, TcpSegment, new_header, new_segment}
use cs144_labs.Wire.Parser.{ParseResult, parser_of}
use cs144_labs.Wire.Tcp.{parse, serialize}
use cs144_labs.Wire.Tcp.{parse_segment, serialize_segment}
use cs144_labs.Wire.Segments.{IsSendable, with_cksum, parse_segment-serialize_segment}
use cs144_labs.Wire.Ip
use cs144_labs.Wire.Ip.{Ipv4Datagram, parse_datagram, serialize_datagram}
use cs144_labs.Wire.Datagrams
use cs144_labs.Wire.Headers
use cs144_labs.Wire.Datagrams.{parse_datagram-serialize_datagram}
use cs144_labs.Wire.Ethernet
use cs144_labs.Wire.Ethernet.{EthernetFrame, parse_frame, serialize_frame}
use cs144_labs.Wire.Frames
use cs144_labs.Wire.Frames.{parse_frame-serialize_frame}
use cs144_labs.Wire.Adapter.{Address, Adapter, unwrap_tcp_in_ip, wrap_tcp_in_ip}
use cs144_labs.Wire.Adapter.Delivery.{HasWords, opening, peer, arrived, unwrap-wrap_tcp_in_ip}
use cs144_labs.Wire.Roundtrip.{Fits, parse-serialize}
use cs144_labs.Wire.Checksum.{InternetChecksum, value}
use cs144_labs.Wire.Complement.{value_lem}
use cs144_labs.Wire.Arp
use cs144_labs.Wire.Arp.{ArpMessage, supported, message_length}
use cs144_labs.Wire.Messages
use cs144_labs.Wire.Reading.{AllBytes}
use cs144_labs.Wire.Messages.{parse-serialize_arp}

-- A header with an option of four bytes.
abbrev syn_header : TcpHeader
syn_header = record new_header {
  sport = 80;
  dport = 4000;
  seqno = 2 ^ 31;
  doff = 6;
  syn = true;
  win = 500;
}

syn_header-Fits : Fits syn_header
syn_header-Fits = record {
  sport_word = omega arith;
  dport_word = omega arith;
  seqno_word = omega arith;
  ackno_word = omega arith;
  doff_word = omega arith;
  win_word = omega arith;
  cksum_word = omega arith;
  uptr_word = omega arith;
}

parse-serialize_example :
    (bytes : List ℕ) × (serialize syn_header ≡ some bytes)
    × (length bytes ≡ syn_header.doff * 4)
    × (parse (parser_of (bytes ++ 1 ∷ 2 ∷ [])) ≡ record {
      header = syn_header;
      parser = parser_of (1 ∷ 2 ∷ []);
      result = ParseResult.no_error;
    })
parse-serialize_example = parse-serialize syn_header (1 ∷ 2 ∷ []) syn_header-Fits (omega arith)

abbrev some_sum : InternetChecksum
some_sum = record { sum = 2 ^ 31 + 65535; parity = true }

value_lem_example :
    (r : ℕ) × (value some_sum ≡ some r) × (r < 2 ^ 16) × ((some_sum.sum + r) % (2 ^ 16 - 1) ≡ 0)
value_lem_example = value_lem some_sum (omega arith)

abbrev some_address : List ℕ
some_address = 1 ∷ 2 ∷ 3 ∷ 4 ∷ 5 ∷ 255 ∷ []

some_address-IsAddress : Messages.IsAddress some_address
unfolding AllBytes
some_address-IsAddress = record {
  size = refl;
  bytes =
      (omega arith, (omega arith, (omega arith, (omega arith, (omega arith, (omega arith, tt))))));
}

abbrev request : ArpMessage
request = record {
  hardware_type = 1;
  protocol_type = 2048;
  hardware_address_size = 6;
  protocol_address_size = 4;
  opcode = 1;
  sender_ethernet_address = some_address;
  sender_ip_address = 167772161;
  target_ethernet_address = some_address;
  target_ip_address = 167772162;
}

request-Fits : Messages.Fits request
request-Fits = record {
  hardware_word = omega arith;
  protocol_word = omega arith;
  hardware_byte = omega arith;
  protocol_byte = omega arith;
  opcode_word = omega arith;
  sender_address = some_address-IsAddress;
  sender_word = omega arith;
  target_address = some_address-IsAddress;
  target_word = omega arith;
}

parse-serialize_arp_example :
    (supported request ≡ true
      → (bytes : List ℕ) × (Arp.serialize request ≡ some bytes)
        × (length bytes ≡ message_length)
        × (Arp.parse request bytes ≡ (request, ParseResult.no_error)))
    × (supported request ≡ false → Arp.serialize request ≡ none)
parse-serialize_arp_example = parse-serialize_arp request request request-Fits

-- A SYN with three bytes.
abbrev three_byte_syn : TcpSegment
three_byte_syn = record { header = syn_header; payload = 7 ∷ 255 ∷ 0 ∷ [] }

three_byte_syn-IsSendable : IsSendable three_byte_syn
unfolding AllBytes
three_byte_syn-IsSendable = record {
  fits = syn_header-Fits;
  doff_min = omega arith;
  payload_bytes = (omega arith, (omega arith, (omega arith, tt)));
  size = omega arith;
}

parse_segment-serialize_segment_example :
    (cksum : ℕ) × (bytes : List ℕ) × (serialize_segment three_byte_syn 1000 ≡ some bytes)
    × (length bytes ≡ three_byte_syn.header.doff * 4 + length three_byte_syn.payload)
    × (parse_segment new_segment bytes 1000
        ≡ some (
          record three_byte_syn { header = with_cksum three_byte_syn.header cksum },
          ParseResult.no_error,
        ))
parse_segment-serialize_segment_example =
    parse_segment-serialize_segment new_segment three_byte_syn 1000 three_byte_syn-IsSendable
      (omega arith)

abbrev client_address : Address
client_address = record { ipv4_numeric = 2851995649; port = 5000 }

abbrev server_address : Address
server_address = record { ipv4_numeric = 2851995650; port = 80 }

abbrev client : Adapter
client = record { source = client_address; destination = server_address; listening = false }

-- A listener that does not know its peer.
abbrev server : Adapter
server = record {
  source = record { ipv4_numeric = 0; port = 80 };
  destination = record { ipv4_numeric = 0; port = 0 };
  listening = true;
}

client-HasWords : HasWords client
client-HasWords = record {
  source_word = omega arith;
  source_port = omega arith;
  destination_word = omega arith;
  destination_port = omega arith;
}

unwrap-wrap_tcp_in_ip_example :
    (dgram : Ipv4Datagram) × (cksum : ℕ) × (wrap_tcp_in_ip client three_byte_syn ≡ some dgram)
    × (unwrap_tcp_in_ip server dgram
        ≡ some (peer client, some (arrived client three_byte_syn cksum)))
unwrap-wrap_tcp_in_ip_example =
    unwrap-wrap_tcp_in_ip client server three_byte_syn client-HasWords three_byte_syn-IsSendable
      (opening refl refl refl refl)

-- A datagram with a word of options, and an empty one.
abbrev five_bytes : Ipv4Datagram
five_bytes = record {
  header = record Ip.new_header { hlen = 6; len = 29; ttl = 64; src = 2 ^ 31; dst = 17 };
  payload = 1 ∷ 2 ∷ 3 ∷ 4 ∷ 5 ∷ [];
}

abbrev no_datagram : Ipv4Datagram
no_datagram = record { header = Ip.new_header; payload = [] }

five_bytes-IsSendable : Datagrams.IsSendable five_bytes
five_bytes-IsSendable = record {
  fits = record {
    ver_word = refl;
    hlen_word = omega arith;
    hlen_min = omega arith;
    tos_byte = omega arith;
    len_word = omega arith;
    id_word = omega arith;
    offset_word = omega arith;
    ttl_byte = omega arith;
    proto_byte = omega arith;
    cksum_word = omega arith;
    src_word = omega arith;
    dst_word = omega arith;
  };
  size = refl;
}

parse_datagram-serialize_datagram_example :
    (cksum : ℕ) × (bytes : List ℕ) × (serialize_datagram five_bytes ≡ some bytes)
    × (length bytes ≡ 29)
    × ((Ip.parse no_datagram.header (parser_of bytes)).result ≡ ParseResult.no_error)
    × (parse_datagram no_datagram bytes ≡ (
      record five_bytes { header = Headers.with_cksum five_bytes.header cksum },
      ParseResult.no_error,
    ))
parse_datagram-serialize_datagram_example =
    parse_datagram-serialize_datagram no_datagram five_bytes five_bytes-IsSendable

abbrev small_frame : EthernetFrame
small_frame = record {
  header = record {
    dst = 1 ∷ 2 ∷ 3 ∷ 4 ∷ 5 ∷ 6 ∷ [];
    src = 255 ∷ 0 ∷ 0 ∷ 0 ∷ 0 ∷ 1 ∷ [];
    type = Ethernet.type_ipv4;
  };
  payload = 9 ∷ 8 ∷ [];
}

abbrev no_frame : EthernetFrame
no_frame = record { header = record { dst = []; src = []; type = 0 }; payload = [] }

small_frame-Fits : Frames.Fits small_frame.header
unfolding AllBytes
small_frame-Fits = record {
  dst_address = record {
    size = refl;
    bytes = (
      omega arith,
      (omega arith, (omega arith, (omega arith, (omega arith, (omega arith, tt))))),
    );
  };
  src_address = record {
    size = refl;
    bytes = (
      omega arith,
      (omega arith, (omega arith, (omega arith, (omega arith, (omega arith, tt))))),
    );
  };
  type_word = omega arith;
}

parse_frame-serialize_frame_example :
    (length (serialize_frame small_frame) ≡ 16)
    × (parse_frame no_frame (serialize_frame small_frame) ≡ (small_frame, ParseResult.no_error))
parse_frame-serialize_frame_example =
    parse_frame-serialize_frame no_frame small_frame small_frame-Fits
