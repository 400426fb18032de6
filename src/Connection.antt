-- ===== src/Connection.antt =====
-- `TCPConnection` of libsponge/tcp_connection.hh and tcp_connection.cc: a receiver, a sender and the
-- segments that wait for the owner to send them. `none` is a failed assertion or an exception.
pub mod Enqueueing
pub mod Answering
pub mod Handling
pub mod Ticking
pub mod Opening
pub mod Ending
pub mod Handshake
use cs144_labs.Prelude.{
  ℕ, ◌+◌, ◌-◌, ◌*◌, ◌%◌, ◌^◌, min, Bool, true, false, not, ◌&&◌, ◌||◌, Option, none, some, List, [],
  ◌∷◌, ◌++◌, if◌then◌else◌, ltb, leb, ◌==◌, add64, sub64, sub32,
}
use cs144_labs.ByteStream
use cs144_labs.Segment.{TcpSegment, length_in_sequence_space}
use cs144_labs.Config.{TcpConfig, max_retx_attempts}
use cs144_labs.Receiver
use cs144_labs.Receiver.{TcpReceiver, is_listening, is_syn_recv, is_fin_recv}
use cs144_labs.Sender
use cs144_labs.Sender.{TcpSender, is_closed, is_syn_acked, is_fin_acked}

pub record TcpConnection : Type 0 where
  pub cfg : TcpConfig
  pub receiver : TcpReceiver
  pub sender : TcpSender
  pub ms_since_last_recv : ℕ
  pub segments_out : List TcpSegment
  pub active : Bool
  pub linger_after_stream_finish : Bool
  pub need_send_rst : Bool

-- The initial sequence number is the configuration's, or else `random_isn`, which the program takes
-- from `std::random_device`.
abbrev pub isn_of : Option ℕ → ℕ → ℕ
isn_of none random_isn = random_isn
isn_of (some isn) random_isn = isn

unfoldable pub new : TcpConfig → ℕ → TcpConnection
new cfg random_isn = record {
  cfg = cfg;
  receiver = Receiver.new cfg.recv_capacity;
  sender = Sender.new cfg.send_capacity cfg.rt_timeout (isn_of cfg.fixed_isn random_isn);
  ms_since_last_recv = 0;
  segments_out = [];
  active = true;
  linger_after_stream_finish = true;
  need_send_rst = false;
}

abbrev pub remaining_outbound_capacity : TcpConnection → ℕ
remaining_outbound_capacity c = ByteStream.remaining_capacity c.sender.stream

abbrev pub bytes_in_flight : TcpConnection → ℕ
bytes_in_flight c = c.sender.bytes_in_flight

abbrev pub unassembled_bytes : TcpConnection → ℕ
unassembled_bytes c = Receiver.unassembled_bytes c.receiver

abbrev pub time_since_last_segment_received : TcpConnection → ℕ
time_since_last_segment_received c = c.ms_since_last_recv

-- The acknowledgment and the window that the receiver gives an outbound segment.
unfoldable pub stamp : Option ℕ → ℕ → TcpSegment → TcpSegment
stamp none window seg = seg
stamp (some ackno) window seg = record seg {
  header = record seg.header { ack = true; ackno = ackno; win = min window (2 ^ 16 - 1) };
}

abbrev pub with_ack : TcpReceiver → TcpSegment → TcpSegment
with_ack r seg = stamp (Receiver.ackno r) (Receiver.window_size r) seg

abbrev pub with_rst : TcpSegment → TcpSegment
with_rst seg = record seg { header = record seg.header { rst = true } }

-- The loop of `enqueue_segments` over the sender's queue. A segment that the RST case has moved from
-- stays in that queue, with no payload.
unfoldable pub enqueue_from : TcpConnection → List TcpSegment → TcpConnection
enqueue_from c [] = record c { sender = record c.sender { segments_out = [] } }
enqueue_from c (seg ∷ rest) =
    let queued =
      enqueue_from (record c { segments_out = c.segments_out ++ with_ack c.receiver seg ∷ [] })
        rest in
    if c.need_send_rst
    then record c {
      segments_out = c.segments_out ++ with_rst seg ∷ [];
      sender = record c.sender { segments_out = record seg { payload = [] } ∷ rest };
    }
    else queued

abbrev pub enqueue_segments : TcpConnection → TcpConnection
enqueue_segments c = enqueue_from c c.sender.segments_out

-- The condition of `try_clean_shutdown`.
unfoldable pub is_finished : TcpConnection → Bool
is_finished c =
    (c.linger_after_stream_finish
      && (is_fin_recv (Receiver.state c.receiver)
          && leb ((10 * c.cfg.rt_timeout) % 2 ^ 64) c.ms_since_last_recv))
    || (not c.linger_after_stream_finish && is_fin_acked (Sender.state c.sender))

unfoldable pub try_clean_shutdown : TcpConnection → TcpConnection
try_clean_shutdown c = if is_finished c then record c { active = false } else c

unfoldable pub unclean_shutdown : TcpConnection → TcpConnection
unclean_shutdown c = record c {
  receiver = record c.receiver {
    reassembler = record c.receiver.reassembler {
      output = ByteStream.set_error c.receiver.reassembler.output;
    };
  };
  sender = record c.sender { stream = ByteStream.set_error c.sender.stream };
  linger_after_stream_finish = false;
  active = false;
}

-- The passive close of `segment_received`.
unfoldable pub passive_close : TcpConnection → TcpConnection
passive_close c =
    if is_fin_recv (Receiver.state c.receiver) && is_syn_acked (Sender.state c.sender)
    then try_clean_shutdown (record c { linger_after_stream_finish = false })
    else c

-- `seqno == ackno - 1`; `none` is the exception of an empty acknowledgment number.
abbrev pub is_before : ℕ → Option ℕ → Option Bool
is_before seqno none = none
is_before seqno (some ackno) = some (seqno == sub32 ackno 1)

-- Whether the segment must be answered.
unfoldable pub needs_reply : TcpReceiver → TcpSegment → Option Bool
needs_reply r seg =
    if ltb 0 (length_in_sequence_space seg)
    then some true
    else (if is_syn_recv (Receiver.state r)
        then is_before seg.header.seqno (Receiver.ackno r)
        else some false)

-- The sender is told of the acknowledgment that the segment has.
abbrev pub tell_sender : TcpSender → TcpSegment → TcpSender
tell_sender s seg =
    if seg.header.ack then Sender.ack_received s seg.header.ackno seg.header.win else s

-- `segment_received` after `fill_window`.
unfoldable pub reply : TcpConnection → TcpSegment → Option TcpConnection
reply c seg = elim (needs_reply c.receiver seg) [
  | none ↦ none
  | some answer ↦ some (
      enqueue_segments (
        try_clean_shutdown
          (record c { sender = if answer then Sender.send_empty_segment c.sender else c.sender })))
]

-- `segment_received` from `fill_window` on.
unfoldable pub send_filled : TcpConnection → TcpSegment → Option TcpConnection
send_filled c seg = elim (Sender.fill_window c.sender) [
  | none ↦ none
  | some sender ↦ reply (record c { sender = sender }) seg
]

-- `segment_received` after the receiver.
unfoldable pub send_on : TcpConnection → TcpSegment → Option TcpConnection
send_on c seg = send_filled (passive_close (record c { sender = tell_sender c.sender seg })) seg

-- `segment_received` of a segment that is not ignored and has no RST.
unfoldable pub accept_segment : TcpConnection → TcpSegment → Option TcpConnection
accept_segment c seg = elim (Receiver.segment_received c.receiver seg) [
  | none ↦ none
  | some receiver ↦ send_on (record c { receiver = receiver }) seg
]

-- Whether LISTEN ignores the segment.
unfoldable pub is_ignored : TcpConnection → TcpSegment → Bool
is_ignored c seg =
    (is_listening (Receiver.state c.receiver) && is_closed (Sender.state c.sender))
    && ((not seg.header.syn || seg.header.ack) || seg.header.rst)

unfoldable pub segment_received : TcpConnection → TcpSegment → Option TcpConnection
segment_received c seg =
    let heard = record c { ms_since_last_recv = 0 } in
    if is_ignored c seg
    then some c
    else (if seg.header.rst then some (unclean_shutdown heard) else accept_segment heard seg)

-- `sender_.fill_window(); enqueue_segments();`
unfoldable pub fill_and_enqueue : TcpConnection → Option TcpConnection
fill_and_enqueue c = elim (Sender.fill_window c.sender) [
  | none ↦ none
  | some sender ↦ some (enqueue_segments (record c { sender = sender }))
]

-- The stream and the number of bytes that `write` returns.
unfoldable pub write : TcpConnection → List ℕ → Option (TcpConnection × ℕ)
write c bytes =
    let (stream, size) = ByteStream.write c.sender.stream bytes in
    elim (fill_and_enqueue (record c { sender = record c.sender { stream = stream } })) [
      | none ↦ none
      | some c' ↦ some (c', size)
    ]

-- `tick` after the sender's.
unfoldable pub after_tick : TcpConnection → TcpConnection
after_tick c =
    let dead = unclean_shutdown c in
    enqueue_segments (
      if ltb max_retx_attempts (Sender.consecutive_retransmissions c.sender)
      then record dead { need_send_rst = true; sender = Sender.send_empty_segment dead.sender }
      else try_clean_shutdown c)

unfoldable pub tick : TcpConnection → ℕ → Option TcpConnection
tick c ms = elim (Sender.tick c.sender ms) [
  | none ↦ none
  | some sender ↦ some (
      after_tick (record c { ms_since_last_recv = add64 c.ms_since_last_recv ms; sender = sender }))
]

unfoldable pub end_input_stream : TcpConnection → Option TcpConnection
end_input_stream c =
    fill_and_enqueue
      (record c { sender = record c.sender { stream = ByteStream.end_input c.sender.stream } })

unfoldable pub connect : TcpConnection → Option TcpConnection
connect c = fill_and_enqueue c

-- The destructor.
unfoldable pub destroy : TcpConnection → TcpConnection
destroy c =
    if c.active
    then enqueue_segments
        (record c { need_send_rst = true; sender = Sender.send_empty_segment c.sender })
    else c
