-- ===== src/Sender.antt =====
-- `TCPSender` of libsponge/tcp_sender.hh and tcp_sender.cc. The initial sequence number is a
-- parameter: the program takes it from the configuration or from `std::random_device`. Queues are
-- lists, front first.
pub mod Clock
pub mod Validity
pub mod Filling
pub mod Acking
pub mod Ticking
use cs144_labs.Prelude.{
  ℕ, zero, suc, ◌+◌, ◌*◌, ◌%◌, ◌^◌, min, Bool, true, false, not, ◌&&◌, ◌||◌, Option, none, some,
  List, [], ◌∷◌, ◌++◌, if◌then◌else◌, ltb, leb, ◌==◌, add64, sub64,
}
use cs144_labs.ByteStream
use cs144_labs.ByteStream.{ByteStream}
use cs144_labs.Wrapping.{wrap, unwrap}
use cs144_labs.Segment.{TcpSegment, new_segment, new_header, length_in_sequence_space}
use cs144_labs.Config.{max_payload_size}
use Clock.{Timer, new_timer, stop_with, restart, advance, expired}

pub record TcpSender : Type 0 where
  pub isn : ℕ
  pub segments_out : List TcpSegment
  pub outstanding_segments : List TcpSegment
  pub init_retransmission_timeout : ℕ
  pub stream : ByteStream
  pub timer : Timer
  pub retransmission_count : ℕ
  pub next_seq_no : ℕ
  pub last_ack_no : ℕ
  pub bytes_in_flight : ℕ
  pub window_size : ℕ

unfoldable pub new : ℕ → ℕ → ℕ → TcpSender
unfolding ByteStream.new
new capacity retx_timeout isn = record {
  isn = isn;
  segments_out = [];
  outstanding_segments = [];
  init_retransmission_timeout = retx_timeout;
  stream = ByteStream.new capacity;
  timer = new_timer retx_timeout;
  retransmission_count = 0;
  next_seq_no = 0;
  last_ack_no = 0;
  bytes_in_flight = 0;
  window_size = 1;
}

-- `TCPSender::State`
pub data State : Type 0 where
  error closed syn_sent syn_acked fin_sent fin_acked : State

unfoldable pub state : TcpSender → State
state s =
    if s.stream.error
    then error
    else (if s.next_seq_no == 0
        then closed
        else (if s.next_seq_no == s.bytes_in_flight
            then syn_sent
            else (if not (ByteStream.eof s.stream)
                  || ltb s.next_seq_no (add64 s.stream.bytes_written 2)
                then syn_acked
                else (if s.bytes_in_flight == 0 then fin_acked else fin_sent))))

abbrev pub is_closed : State → Bool
is_closed closed = true
is_closed _ = false

abbrev pub is_syn_acked : State → Bool
is_syn_acked syn_acked = true
is_syn_acked _ = false

abbrev pub is_fin_acked : State → Bool
is_fin_acked fin_acked = true
is_fin_acked _ = false

unfoldable pub send_segment : TcpSender → TcpSegment → TcpSender
send_segment s seg = record s {
  next_seq_no = add64 s.next_seq_no (length_in_sequence_space seg);
  bytes_in_flight = add64 s.bytes_in_flight (length_in_sequence_space seg);
  segments_out = s.segments_out ++ seg ∷ [];
  outstanding_segments = s.outstanding_segments ++ seg ∷ [];
  timer = if s.timer.started then s.timer else restart s.timer;
}

unfoldable pub free_window_size : TcpSender → ℕ
free_window_size s =
    if (s.window_size == 0) && (s.next_seq_no == s.last_ack_no)
    then 1
    else (if leb s.window_size (sub64 s.next_seq_no s.last_ack_no)
        then 0
        else sub64 s.window_size (sub64 s.next_seq_no s.last_ack_no))

-- The SYN segment that `fill_window` sends first.
abbrev pub syn_segment : TcpSender → TcpSegment
syn_segment s = record new_segment { header = record new_header { syn = true; seqno = s.isn } }

-- `need_send_fin` of the loop.
unfoldable pub need_send_fin : TcpSender → Bool
need_send_fin s = s.stream.input_ended && is_syn_acked (state s)

unfoldable pub send_size : TcpSender → ℕ
send_size s = min (min s.stream.used_size (free_window_size s)) max_payload_size

-- The segment that one round of the loop sends.
unfoldable pub next_segment : TcpSender → TcpSegment
next_segment s = record {
  header = record new_header {
    seqno = wrap s.next_seq_no s.isn;
    fin =
        ByteStream.eof (ByteStream.pop_output s.stream (send_size s))
        && (ltb (send_size s) (free_window_size s) && need_send_fin s);
  };
  payload = ByteStream.peek_output s.stream (send_size s);
}

-- One round: `stream_.read(send_size)` and `send_segment`.
unfoldable pub send_next : TcpSender → TcpSender
send_next s =
    send_segment (record s { stream = ByteStream.pop_output s.stream (send_size s) })
      (next_segment s)

-- Whether the loop returns before it sends.
unfoldable pub nothing_to_send : TcpSender → Bool
nothing_to_send s =
    (free_window_size s == 0) || ((s.stream.used_size == 0) && not (need_send_fin s))

-- The loop of `fill_window`; `none` means that the fuel ran out.
unfoldable pub fill_loop : ℕ → TcpSender → Option TcpSender
fill_loop zero s = none
fill_loop (suc fuel) s =
    let rest = fill_loop fuel (send_next s) in if nothing_to_send s then some s else rest

-- A round takes a sequence number of the window at least: so much fuel is enough.
unfoldable pub fill_window : TcpSender → Option TcpSender
fill_window s =
    let filled = fill_loop (suc (free_window_size s)) s in
    if is_closed (state s) then some (send_segment s (syn_segment s)) else filled

-- The loop of `ack_received` over the outstanding segments: what is left of them, the bytes in
-- flight, and the timer.
unfoldable pub drop_acked : ℕ → ℕ → ℕ → List TcpSegment → ℕ → Timer → List TcpSegment × ℕ × Timer
drop_acked isn last abs_ack_no [] in_flight timer = ([], in_flight, timer)
drop_acked isn last abs_ack_no (seg ∷ rest) in_flight timer =
    let dropped =
      drop_acked isn last abs_ack_no rest (sub64 in_flight (length_in_sequence_space seg)) timer in
    if ltb abs_ack_no (add64 (unwrap seg.header.seqno isn last) (length_in_sequence_space seg))
    then (seg ∷ rest, in_flight, restart timer)
    else dropped

-- An acknowledgment of new data.
unfoldable pub accept_ack : TcpSender → ℕ → ℕ → TcpSender
accept_ack s abs_ack_no window_size =
    let (left, in_flight, timer) =
      drop_acked s.isn s.last_ack_no abs_ack_no s.outstanding_segments s.bytes_in_flight
        (stop_with s.timer s.init_retransmission_timeout) in
    record s {
      timer = timer;
      retransmission_count = 0;
      outstanding_segments = left;
      bytes_in_flight = in_flight;
      window_size = window_size;
      last_ack_no = abs_ack_no;
    }

unfoldable pub ack_received : TcpSender → ℕ → ℕ → TcpSender
ack_received s ackno window_size =
    let abs_ack_no = unwrap ackno s.isn s.last_ack_no in
    if leb abs_ack_no s.last_ack_no || ltb s.next_seq_no abs_ack_no
    then (if abs_ack_no == s.last_ack_no then record s { window_size = window_size } else s)
    else accept_ack s abs_ack_no window_size

-- The retransmission after the timer has expired; `none` is the failed assertion that a segment is
-- outstanding.
unfoldable pub retransmit : TcpSender → List TcpSegment → Option TcpSender
retransmit s [] = none
retransmit s (seg ∷ rest) =
    let backed_off = record s {
      retransmission_count = add64 s.retransmission_count 1;
      timer = stop_with s.timer ((s.timer.timeout_ms * 2) % 2 ^ 64);
    } in
    let s' = if ltb 0 s.window_size then backed_off else s in
    some (record s' { segments_out = s.segments_out ++ seg ∷ []; timer = restart s'.timer })

unfoldable pub tick : TcpSender → ℕ → Option TcpSender
unfolding retransmit
tick s ms =
    let s' = record s { timer = advance s.timer ms } in
    if expired s'.timer then retransmit s' s'.outstanding_segments else some s'

-- An `unsigned int`.
abbrev pub consecutive_retransmissions : TcpSender → ℕ
consecutive_retransmissions s = s.retransmission_count % 2 ^ 32

-- `empty()` of a queue.
abbrev pub is_empty : List TcpSegment → Bool
is_empty [] = true
is_empty (seg ∷ segs) = false

-- The segment that `send_empty_segment` makes.
abbrev pub empty_segment : TcpSender → TcpSegment
empty_segment s = record new_segment {
  header = record new_header { seqno = wrap s.next_seq_no s.isn };
}

unfoldable pub send_empty_segment : TcpSender → TcpSender
send_empty_segment s =
    if is_empty s.segments_out then record s { segments_out = empty_segment s ∷ [] } else s
