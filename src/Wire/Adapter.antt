-- ===== src/Wire/Adapter.antt =====
-- `TCPOverIPv4Adapter` of libsponge/tcp_helpers/tcp_over_ip.{hh,cc}, with the configuration and the
-- flag of `FdAdapterBase` in fd_adapter.hh. An `Address` is the number and the port that
-- `ipv4_numeric()` and `port()` give.
pub mod Delivery
use cs144_labs.Prelude.{
  ℕ, ◌+◌, ◌*◌, ◌%◌, ◌^◌, Bool, false, not, ◌&&◌, ◌||◌, Option, none, some, if◌then◌else◌, ◌==◌,
  length,
}
use cs144_labs.Segment.{TcpHeader, TcpSegment, new_segment}
use cs144_labs.Wire.Parser.{is_error}
use cs144_labs.Wire.Tcp.{parse_segment, serialize_segment}
use cs144_labs.Wire.Ip.{Ipv4Header, Ipv4Datagram, new_header, pseudo_cksum, proto_tcp}

pub record Address : Type 0 where
  pub ipv4_numeric : ℕ
  pub port : ℕ

pub record Adapter : Type 0 where
  pub source : Address
  pub destination : Address
  pub listening : Bool

-- The adapter that has taken the addresses of the first SYN.
abbrev pub adopt : Adapter → Ipv4Header → TcpHeader → Adapter
adopt a ip tcp = record {
  source = record { ipv4_numeric = ip.dst; port = a.source.port };
  destination = record { ipv4_numeric = ip.src; port = tcp.sport };
  listening = false;
}

-- The check of the peer's port.
abbrev pub from_peer : Adapter → TcpSegment → Adapter × Option TcpSegment
from_peer a seg = if not (seg.header.sport == a.destination.port) then (a, none) else (a, some seg)

-- The checks on a segment that was parsed.
unfoldable pub unwrap_segment : Adapter → Ipv4Header → TcpSegment → Adapter × Option TcpSegment
unwrap_segment a ip seg =
    if not (seg.header.dport == a.source.port)
    then (a, none)
    else (if a.listening
        then (if seg.header.syn && not seg.header.rst
            then from_peer (adopt a ip seg.header) seg
            else (a, none))
        else from_peer a seg)

-- The checks on the datagram.
unfoldable pub is_unrelated : Adapter → Ipv4Header → Bool
is_unrelated a ip =
    (not a.listening && not (ip.dst == a.source.ipv4_numeric))
    || ((not a.listening && not (ip.src == a.destination.ipv4_numeric))
        || not (ip.proto == proto_tcp))

-- Outside, `none` means that the fuel of the checksum ran out.
unfoldable pub unwrap_tcp_in_ip : Adapter → Ipv4Datagram → Option (Adapter × Option TcpSegment)
unwrap_tcp_in_ip a dgram =
    let parsed : Option (Adapter × Option TcpSegment) =
      elim (parse_segment new_segment dgram.payload (pseudo_cksum dgram.header)) [
        | none ↦ none
        | some (seg, result) ↦
            some (if is_error result then (a, none) else unwrap_segment a dgram.header seg)
      ] in
    if is_unrelated a dgram.header then some (a, none) else parsed

-- The segment with the ports of the adapter.
abbrev pub with_ports : Adapter → TcpSegment → TcpSegment
with_ports a seg = record seg {
  header = record seg.header { sport = a.source.port; dport = a.destination.port };
}

-- The header of the datagram, whose length is a `uint16_t`.
abbrev pub header_for : Adapter → TcpSegment → Ipv4Header
header_for a seg = record new_header {
  src = a.source.ipv4_numeric;
  dst = a.destination.ipv4_numeric;
  len = (new_header.hlen * 4 + seg.header.doff * 4 + length seg.payload) % 2 ^ 16;
}

-- `none` is the exception of `serialize`.
unfoldable pub wrap_tcp_in_ip : Adapter → TcpSegment → Option Ipv4Datagram
wrap_tcp_in_ip a seg =
    elim (serialize_segment (with_ports a seg) (pseudo_cksum (header_for a seg))) [
      | none ↦ none
      | some bytes ↦ some (record { header = header_for a seg; payload = bytes })
    ]
