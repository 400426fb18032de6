-- ===== src/Sender/Validity.antt =====
-- The invariant of `TCPSender`: the outstanding segments are the unacknowledged end of what was sent.
use cs144_labs.Prelude.{
  ℕ, ◌+◌, ◌^◌, ◌≤◌, ◌<◌, ◌≡◌, refl, sym, ap, ◌∙◌, false, not, List, [], ◌∷◌, ◌++◌, arith, add64,
}
use cs144_labs.ByteStream.{ByteStream}
use cs144_labs.ByteStream.Validity
use cs144_labs.Wrapping.{wrap}
use cs144_labs.Segment.{TcpSegment, length_in_sequence_space}
use cs144_labs.Config.{max_payload_size}
use cs144_labs.Sender.{TcpSender, new, send_segment, is_empty}

-- The segments follow one another from the absolute sequence number `a` up to `b`. Each occupies at
-- least one number, and not more than a full payload with SYN and FIN does.
abbrev pub Chain : ℕ → ℕ → List TcpSegment → ℕ → Type 0
Chain isn a [] b = a ≡ b
Chain isn a (seg ∷ segs) b =
    (seg.header.seqno ≡ wrap a isn)
    × (0 < length_in_sequence_space seg)
    × (length_in_sequence_space seg ≤ max_payload_size + 2)
    × Chain isn (a + length_in_sequence_space seg) segs b

-- `oldest` is the absolute sequence number of the first outstanding segment.
pub record IsValid (s : TcpSender) : Type 0 where
  pub oldest : ℕ
  pub isn_word : s.isn < 2 ^ 32
  pub stream_valid : Validity.IsValid s.stream
  pub chain : Chain s.isn oldest s.outstanding_segments s.next_seq_no
  pub in_flight : oldest + s.bytes_in_flight ≡ s.next_seq_no
  pub oldest_acked : oldest ≤ s.last_ack_no
  pub acked_sent : s.last_ack_no ≤ s.next_seq_no
  pub partly : s.last_ack_no < oldest + max_payload_size + 2
  pub window_word : s.window_size < 2 ^ 16
  pub ahead : s.next_seq_no ≤ s.last_ack_no + 2 ^ 16
  pub next_word : s.next_seq_no < 2 ^ 63
  pub running : s.timer.started ≡ not (is_empty s.outstanding_segments)

pub new-IsValid :
    (capacity retx_timeout isn : ℕ)
    → 0 < capacity
    → capacity < 2 ^ 63
    → isn < 2 ^ 32
    → IsValid (new capacity retx_timeout isn)
unfolding new
new-IsValid capacity retx_timeout isn h k l = record {
  oldest = 0;
  isn_word = l;
  stream_valid = Validity.new-IsValid capacity h k;
  chain = refl;
  in_flight = refl;
  oldest_acked = omega arith;
  acked_sent = omega arith;
  partly = omega arith;
  window_word = omega arith;
  ahead = omega arith;
  next_word = omega arith;
  running = refl;
}

pub Chain-append :
    (isn a : ℕ) (segs : List TcpSegment) (b : ℕ) (seg : TcpSegment)
    → Chain isn a segs b
    → seg.header.seqno ≡ wrap b isn
    → 0 < length_in_sequence_space seg
    → length_in_sequence_space seg ≤ max_payload_size + 2
    → Chain isn a (segs ++ seg ∷ []) (b + length_in_sequence_space seg)
Chain-append isn a [] b seg c e h k =
    (e ∙ ap (λ t. wrap t isn) (sym c), h, k, ap (λ t. t + length_in_sequence_space seg) c)
Chain-append isn a (x ∷ segs) b seg c e h k =
    (c.0, c.1, c.2, Chain-append isn (a + length_in_sequence_space x) segs b seg c.3 e h k)

pub Chain-le : (isn a : ℕ) (segs : List TcpSegment) (b : ℕ) → Chain isn a segs b → a ≤ b
Chain-le isn a [] b c = omega arith
Chain-le isn a (x ∷ segs) b c =
    omega (arith, Chain-le isn (a + length_in_sequence_space x) segs b c.3)

is_empty-append : (segs : List TcpSegment) (seg : TcpSegment) → is_empty (segs ++ seg ∷ []) ≡ false
is_empty-append [] seg = refl
is_empty-append (x ∷ segs) seg = refl

-- A segment that takes the next numbers, and not too many, can be sent.
pub send_segment-IsValid :
    (s : TcpSender) (seg : TcpSegment)
    → IsValid s
    → seg.header.seqno ≡ wrap s.next_seq_no s.isn
    → 0 < length_in_sequence_space seg
    → length_in_sequence_space seg ≤ max_payload_size + 2
    → s.next_seq_no + length_in_sequence_space seg ≤ s.last_ack_no + 2 ^ 16
    → s.next_seq_no + length_in_sequence_space seg < 2 ^ 63
    → IsValid (send_segment s seg)
unfolding send_segment
send_segment-IsValid s seg v e h k l m =
    let sum : add64 s.next_seq_no (length_in_sequence_space seg)
        ≡ s.next_seq_no + length_in_sequence_space seg =
      omega arith in
    record {
      oldest = v.oldest;
      isn_word = v.isn_word;
      stream_valid = v.stream_valid;
      chain =
          rw sum
            (Chain-append s.isn v.oldest s.outstanding_segments s.next_seq_no seg v.chain e h k);
      in_flight = omega (arith, v.in_flight);
      oldest_acked = v.oldest_acked;
      acked_sent = omega (arith, v.acked_sent);
      partly = v.partly;
      window_word = v.window_word;
      ahead = omega arith;
      next_word = omega arith;
      running = ground (arith, is_empty-append s.outstanding_segments seg);
    }

-- A valid sender with another valid stream.
pub stream-IsValid :
    (s : TcpSender) (b : ByteStream)
    → IsValid s
    → Validity.IsValid b
    → IsValid (record s { stream = b })
stream-IsValid s b v w = record {
  oldest = v.oldest;
  isn_word = v.isn_word;
  stream_valid = w;
  chain = v.chain;
  in_flight = v.in_flight;
  oldest_acked = v.oldest_acked;
  acked_sent = v.acked_sent;
  partly = v.partly;
  window_word = v.window_word;
  ahead = v.ahead;
  next_word = v.next_word;
  running = v.running;
}
