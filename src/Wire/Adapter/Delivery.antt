-- ===== src/Wire/Adapter/Delivery.antt =====
-- A segment that one adapter wraps, and its peer unwraps.
use cs144_labs.Prelude.{ℕ, ◌^◌, ◌<◌, ◌≡◌, refl, ap, ◌∙◌, true, false, some, arith}
use cs144_labs.Segment.{TcpSegment, new_segment}
use cs144_labs.Wire.Parser.{ParseResult}
use cs144_labs.Wire.Tcp.{parse_segment}
use cs144_labs.Wire.Ip.{Ipv4Datagram, pseudo_cksum}
use cs144_labs.Wire.Segments.{IsSendable, with_cksum, parse_segment-serialize_segment}
use cs144_labs.Wire.Adapter.{
  Adapter, adopt, unwrap_segment, is_unrelated, unwrap_tcp_in_ip, with_ports, header_for,
  wrap_tcp_in_ip,
}

-- The addresses of an adapter fit their fields.
pub record HasWords (a : Adapter) : Type 0 where
  pub source_word : a.source.ipv4_numeric < 2 ^ 32
  pub source_port : a.source.port < 2 ^ 16
  pub destination_word : a.destination.ipv4_numeric < 2 ^ 32
  pub destination_port : a.destination.port < 2 ^ 16

-- The adapter that talks to `a`.
abbrev pub peer : Adapter → Adapter
peer a = record { source = a.destination; destination = a.source; listening = false }

-- `b` takes a segment that `a` sends: it is the peer of `a`, or it listens at the port that `a` sends to
-- and the segment is a SYN without RST.
pub data Takes (a b : Adapter) (seg : TcpSegment) : Type 0 where
  connected : b ≡ peer a → Takes a b seg
  opening :
      b.listening ≡ true
      → b.source.port ≡ a.destination.port
      → seg.header.syn ≡ true
      → seg.header.rst ≡ false
      → Takes a b seg

-- The segment as it arrives.
abbrev pub arrived : Adapter → TcpSegment → ℕ → TcpSegment
arrived a seg cksum = record seg { header = with_cksum (with_ports a seg).header cksum }

with_ports-IsSendable :
    (a : Adapter) (seg : TcpSegment) → HasWords a → IsSendable seg → IsSendable (with_ports a seg)
with_ports-IsSendable a seg w s = record {
  fits = record {
    sport_word = w.source_port;
    dport_word = w.destination_port;
    seqno_word = s.fits.seqno_word;
    ackno_word = s.fits.ackno_word;
    doff_word = s.fits.doff_word;
    win_word = s.fits.win_word;
    cksum_word = s.fits.cksum_word;
    uptr_word = s.fits.uptr_word;
  };
  doff_min = s.doff_min;
  payload_bytes = s.payload_bytes;
  size = s.size;
}

pseudo_cksum_bound :
    (a : Adapter) (seg : TcpSegment) → HasWords a → pseudo_cksum (header_for a seg) < 2 ^ 20
unfolding pseudo_cksum
pseudo_cksum_bound a seg w = omega arith

unwrap_parsed :
    (b : Adapter) (dgram : Ipv4Datagram) (seg : TcpSegment)
    → parse_segment new_segment dgram.payload (pseudo_cksum dgram.header)
      ≡ some (seg, ParseResult.no_error)
    → is_unrelated b dgram.header ≡ false
    → unwrap_tcp_in_ip b dgram ≡ some (unwrap_segment b dgram.header seg)
unfolding unwrap_tcp_in_ip
unwrap_parsed b dgram seg e f = rw (unwrap_tcp_in_ip, e, f) refl

unwrap_connected :
    (a : Adapter) (seg : TcpSegment) (cksum : ℕ)
    → (is_unrelated (peer a) (header_for a seg) ≡ false)
      × (unwrap_segment (peer a) (header_for a seg) (arrived a seg cksum)
          ≡ (peer a, some (arrived a seg cksum)))
unfolding is_unrelated unwrap_segment
unwrap_connected a seg cksum = (ground arith, ground arith)

unwrap_listening :
    (a b : Adapter) (seg : TcpSegment) (cksum : ℕ)
    → b.listening ≡ true
    → b.source.port ≡ a.destination.port
    → seg.header.syn ≡ true
    → seg.header.rst ≡ false
    → (is_unrelated b (header_for a seg) ≡ false)
      × (unwrap_segment b (header_for a seg) (arrived a seg cksum)
          ≡ (adopt b (header_for a seg) (arrived a seg cksum).header, some (arrived a seg cksum)))
unfolding is_unrelated unwrap_segment
unwrap_listening a b seg cksum l e s r = (ground arith, ground arith)

-- A segment that fits into a datagram is wrapped, and an adapter that takes it unwraps the same segment,
-- with the ports of the sender and a checksum, and is then the peer of the sender.
pub unwrap-wrap_tcp_in_ip :
    (a b : Adapter) (seg : TcpSegment)
    → HasWords a
    → IsSendable seg
    → Takes a b seg
    → (dgram : Ipv4Datagram) × (cksum : ℕ) × (wrap_tcp_in_ip a seg ≡ some dgram)
      × (unwrap_tcp_in_ip b dgram ≡ some (peer a, some (arrived a seg cksum)))
unfolding wrap_tcp_in_ip
unwrap-wrap_tcp_in_ip a b seg w s t =
    let start = pseudo_cksum (header_for a seg) in
    let (cksum, bytes, made, _, parsed) =
      parse_segment-serialize_segment new_segment (with_ports a seg) start
        (with_ports-IsSendable a seg w s) (pseudo_cksum_bound a seg w) in
    let dgram : Ipv4Datagram = record { header = header_for a seg; payload = bytes } in
    (
      dgram,
      cksum,
      rw (wrap_tcp_in_ip, made) refl,
      elim t [
        | connected p ↦
            let (related, taken) = unwrap_connected a seg cksum in
            rw p (unwrap_parsed (peer a) dgram (arrived a seg cksum) parsed related ∙ ap some taken)
        | opening l e syn rst ↦
            let (related, taken) = unwrap_listening a b seg cksum l e syn rst in
            unwrap_parsed b dgram (arrived a seg cksum) parsed related
            ∙ ap some taken
            ∙ ap
                (λ n. some (
                  record {
                    source = record { ipv4_numeric = a.destination.ipv4_numeric; port = n };
                    destination = a.source;
                    listening = false;
                  },
                  some (arrived a seg cksum),
                ))
                e
      ],
    )
