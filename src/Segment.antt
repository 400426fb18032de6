-- ===== src/Segment.antt =====
-- The data of libsponge/tcp_helpers/tcp_header.hh and tcp_segment.hh. A payload is the bytes that its
-- `Buffer` shows.
use cs144_labs.Prelude.{ℕ, Bool, false, List, [], if◌then◌else◌, length, add64}

pub record TcpHeader : Type 0 where
  pub sport : ℕ
  pub dport : ℕ
  pub seqno : ℕ
  pub ackno : ℕ
  pub doff : ℕ
  pub urg : Bool
  pub ack : Bool
  pub psh : Bool
  pub rst : Bool
  pub syn : Bool
  pub fin : Bool
  pub win : ℕ
  pub cksum : ℕ
  pub uptr : ℕ

-- `TCPHeader::LENGTH`
abbrev pub header_length : ℕ
header_length = 20

-- A header with the initializers of its fields.
abbrev pub new_header : TcpHeader
new_header = record {
  sport = 0;
  dport = 0;
  seqno = 0;
  ackno = 0;
  doff = 5;
  urg = false;
  ack = false;
  psh = false;
  rst = false;
  syn = false;
  fin = false;
  win = 0;
  cksum = 0;
  uptr = 0;
}

pub record TcpSegment : Type 0 where
  pub header : TcpHeader
  pub payload : List ℕ

abbrev pub new_segment : TcpSegment
new_segment = record { header = new_header; payload = [] }

unfoldable pub length_in_sequence_space : TcpSegment → ℕ
length_in_sequence_space seg =
    add64 (add64 (length seg.payload) (if seg.header.syn then 1 else 0))
      (if seg.header.fin then 1 else 0)
