-- ===== src/Connection/Opening.antt =====
-- The parts of the three-way handshake: what each endpoint's sender and receiver become.
use cs144_labs.Prelude.{
  ℕ, ◌^◌, ◌≤◌, ◌<◌, ◌≡◌, refl, sym, ap, ◌∙◌, Bool, true, false, ◌||◌, some, [], ◌∷◌, arith, ◌==◌,
  if◌then◌else◌, le→ltb, if_true, if_false, sub64,
}
use cs144_labs.ByteStream
use cs144_labs.Reassembler
use cs144_labs.Reassembler.{
  StreamReassembler, View, skip_written, cut_to_capacity, feed, end_at_eof, push_view,
  push_substring,
}
use cs144_labs.Wrapping.{advance, wrap, unwrap}
use cs144_labs.Wrapping.Closest.{unwrap-wrap}
use cs144_labs.Segment.{TcpSegment, length_in_sequence_space}
use cs144_labs.Receiver
use cs144_labs.Receiver.{TcpReceiver, open_with, push_at, deliver}
use cs144_labs.Receiver.Receiving.{opens, deliver-push_at, segment_received-deliver}
use cs144_labs.Sender
use cs144_labs.Sender.{
  TcpSender, send_segment, syn_segment, fill_loop, fill_window, nothing_to_send, ack_received,
  is_closed, send_empty_segment, empty_segment,
}
use cs144_labs.Sender.Clock.{new_timer, restart}

-- The one number that the SYN takes is `1` for a peer that has had it.
pub unwrap_one :
    (isn checkpoint : ℕ) → isn < 2 ^ 32 → checkpoint ≤ 1 → unwrap (wrap 1 isn) isn checkpoint ≡ 1
unwrap_one isn checkpoint h k =
    unwrap-wrap 1 isn checkpoint h (omega arith) (omega arith) (omega arith)

unwrap_zero : (isn : ℕ) → isn < 2 ^ 32 → unwrap isn isn 0 ≡ 0
unfolding wrap
unwrap_zero isn h =
    let e : wrap 0 isn ≡ isn = omega arith in
    ap (λ t. unwrap t isn 0) (sym e)
    ∙ unwrap-wrap 0 isn 0 h (omega arith) (omega arith) (omega arith)

-- The receiver that has had a SYN, and nothing else.
abbrev pub opened : ℕ → ℕ → TcpReceiver
opened capacity isn = open_with (Receiver.new capacity) isn

cut_nothing :
    (capacity written index : ℕ)
    → cut_to_capacity capacity written (record { sv = []; index = index })
      ≡ record { sv = []; index = index }
unfolding cut_to_capacity
cut_nothing capacity written index =
    if_false _ _ (le→ltb (sub64 capacity (sub64 index written)) 0 (omega arith))

-- Nothing is pushed by an empty substring without FIN.
push_nothing :
    (capacity : ℕ)
    → push_substring (Reassembler.new capacity) [] 0 false ≡ some (Reassembler.new capacity)
unfolding Reassembler.new ByteStream.new push_substring push_view feed end_at_eof skip_written
push_nothing capacity =
    ap (λ v. push_view (Reassembler.new capacity) v false) (cut_nothing capacity 0 0)

-- An empty segment with the number after the SYN changes nothing.
push_at_nothing :
    (capacity isn : ℕ) (seg : TcpSegment)
    → seg.payload ≡ []
    → seg.header.fin ≡ false
    → push_at (opened capacity isn) seg 1 ≡ some (opened capacity isn)
unfolding push_at Receiver.new
push_at_nothing capacity isn seg e f = rw (push_at, e, f, push_nothing capacity) refl

abs_ack_no-opened : (capacity isn : ℕ) → Receiver.abs_ack_no (opened capacity isn) ≡ 1
unfolding Receiver.abs_ack_no Receiver.abs_ack_of Receiver.state Receiver.new Reassembler.new
    ByteStream.new
abs_ack_no-opened capacity isn = refl

deliver_nothing :
    (capacity isn : ℕ) (seg : TcpSegment)
    → isn < 2 ^ 32
    → seg.payload ≡ []
    → seg.header.fin ≡ false
    → advance seg.header.seqno (if seg.header.syn then 1 else 0) ≡ wrap 1 isn
    → deliver (opened capacity isn) seg (some isn) ≡ some (opened capacity isn)
deliver_nothing capacity isn seg h e f n =
    deliver-push_at (opened capacity isn) seg isn 1
      (rw (n, abs_ack_no-opened capacity isn) (unwrap_one isn 1 h (omega arith)))
    ∙ push_at_nothing capacity isn seg e f

-- The first SYN opens a new receiver.
pub receiver_opens :
    (capacity : ℕ) (seg : TcpSegment)
    → seg.header.seqno < 2 ^ 32
    → seg.header.syn ≡ true
    → seg.payload ≡ []
    → seg.header.fin ≡ false
    → Receiver.segment_received (Receiver.new capacity) seg
      ≡ some (opened capacity seg.header.seqno)
unfolding wrap
receiver_opens capacity seg h s e f =
    opens capacity seg s ∙ deliver_nothing capacity seg.header.seqno seg h e f (rw s refl)

-- An empty segment with the number after the SYN leaves the receiver as it is.
pub receiver_stays :
    (capacity isn : ℕ) (seg : TcpSegment)
    → isn < 2 ^ 32
    → seg.header.seqno ≡ wrap 1 isn
    → seg.header.syn ≡ false
    → seg.payload ≡ []
    → seg.header.fin ≡ false
    → Receiver.segment_received (opened capacity isn) seg ≡ some (opened capacity isn)
unfolding Receiver.state Receiver.new Reassembler.new ByteStream.new wrap
receiver_stays capacity isn seg h n s e f =
    segment_received-deliver (opened capacity isn) seg refl
    ∙ deliver_nothing capacity isn seg h e f (number seg.header.seqno n s)
  where
    number :
        (k : ℕ)
        → k ≡ wrap 1 isn
        → seg.header.syn ≡ false
        → advance k (if seg.header.syn then 1 else 0) ≡ wrap 1 isn
    number k n s = rw s (omega (arith, n))

-- The sender after its SYN, whose segment was taken.
unfoldable pub syn_sent : ℕ → ℕ → ℕ → TcpSender
syn_sent capacity rto isn = record {
  isn = isn;
  segments_out = [];
  outstanding_segments = syn_segment (Sender.new capacity rto isn) ∷ [];
  init_retransmission_timeout = rto;
  stream = ByteStream.new capacity;
  timer = restart (new_timer rto);
  retransmission_count = 0;
  next_seq_no = 1;
  last_ack_no = 0;
  bytes_in_flight = 1;
  window_size = 1;
}

-- The sender whose SYN was acknowledged.
unfoldable pub syn_acked : ℕ → ℕ → ℕ → ℕ → TcpSender
syn_acked capacity rto isn window = record {
  isn = isn;
  segments_out = [];
  outstanding_segments = [];
  init_retransmission_timeout = rto;
  stream = ByteStream.new capacity;
  timer = new_timer rto;
  retransmission_count = 0;
  next_seq_no = 1;
  last_ack_no = 1;
  bytes_in_flight = 0;
  window_size = window;
}

pub sender_starts :
    (capacity rto isn : ℕ)
    → fill_window (Sender.new capacity rto isn)
      ≡ some (record (syn_sent capacity rto isn) {
        segments_out = syn_segment (Sender.new capacity rto isn) ∷ [];
      })
unfolding fill_window Sender.new Sender.state ByteStream.new send_segment length_in_sequence_space
    syn_sent
sender_starts capacity rto isn = refl

pub sender_acked :
    (capacity rto isn window : ℕ)
    → isn < 2 ^ 32
    → ack_received (syn_sent capacity rto isn) (wrap 1 isn) window
      ≡ syn_acked capacity rto isn window
unfolding ack_received Sender.accept_ack Sender.drop_acked syn_sent syn_acked Sender.new
    length_in_sequence_space
sender_acked capacity rto isn window h =
    rw (unwrap_one isn 0 h (omega arith), unwrap_zero isn h) refl

nothing_left :
    (capacity rto isn window : ℕ) → nothing_to_send (syn_acked capacity rto isn window) ≡ true
unfolding nothing_to_send syn_acked ByteStream.new Sender.need_send_fin
nothing_left capacity rto isn window =
    or_true (Sender.free_window_size (syn_acked capacity rto isn window) == 0)
  where
    or_true : (b : Bool) → (b || true) ≡ true
    or_true true = refl
    or_true false = refl

pub nothing_more :
    (capacity rto isn window : ℕ)
    → fill_window (syn_acked capacity rto isn window) ≡ some (syn_acked capacity rto isn window)
unfolding fill_window fill_loop nothing_to_send syn_acked Sender.state ByteStream.new
    Sender.need_send_fin
nothing_more capacity rto isn window = if_true _ _ (nothing_left capacity rto isn window)
