-- ===== src/Connection/Handshake.antt =====
-- The three-way handshake of two connections.
use cs144_labs.Prelude.{
  ℕ, ◌-◌, ◌^◌, ◌<◌, min, ◌≡◌, refl, ap, ◌∙◌, true, false, some, List, [], ◌∷◌, arith, ◌==◌, sub64,
  sub32,
}
use cs144_labs.ByteStream
use cs144_labs.Reassembler
use cs144_labs.Config.{TcpConfig}
use cs144_labs.Wrapping.{wrap}
use cs144_labs.Segment.{TcpSegment, new_segment, new_header, length_in_sequence_space}
use cs144_labs.Receiver
use cs144_labs.Receiver.{TcpReceiver, window_size}
use cs144_labs.Sender
use cs144_labs.Sender.{TcpSender, syn_segment, fill_window, send_empty_segment, empty_segment}
use cs144_labs.Connection.{
  TcpConnection, new, isn_of, connect, segment_received, stamp, with_ack, enqueue_from, is_finished,
  try_clean_shutdown, passive_close, needs_reply, reply, send_on, send_filled, is_ignored,
  fill_and_enqueue,
}
use cs144_labs.Connection.Handling.{send_filled_lem, accept_segment_lem}
use cs144_labs.Connection.Opening.{
  opened, receiver_opens, receiver_stays, syn_sent, syn_acked, sender_starts, sender_acked,
  nothing_more,
}

-- A connection, given by its parts.
abbrev endpoint : TcpConfig → TcpReceiver → TcpSender → List TcpSegment → TcpConnection
endpoint cfg receiver sender out = record {
  cfg = cfg;
  receiver = receiver;
  sender = sender;
  ms_since_last_recv = 0;
  segments_out = out;
  active = true;
  linger_after_stream_finish = true;
  need_send_rst = false;
}

-- The acknowledgment and the window on a segment, from a receiver that has had the SYN alone.
abbrev pub stamped : ℕ → ℕ → TcpSegment → TcpSegment
stamped capacity isn seg = record seg {
  header = record seg.header {
    ack = true;
    ackno = wrap 1 isn;
    win = min (sub64 capacity 0) (2 ^ 16 - 1);
  };
}

with_ack-opened :
    (capacity isn : ℕ) (seg : TcpSegment)
    → with_ack (opened capacity isn) seg ≡ stamped capacity isn seg
unfolding stamp Receiver.ackno Receiver.ackno_of Receiver.abs_ack_no Receiver.abs_ack_of
    Receiver.state Receiver.new Reassembler.new ByteStream.new
with_ack-opened capacity isn seg = refl

-- The segments of the handshake.
abbrev pub syn_of : ℕ → TcpSegment
syn_of isn = record new_segment { header = record new_header { syn = true; seqno = isn } }

abbrev pub ack_of : ℕ → TcpSegment
ack_of isn = record new_segment { header = record new_header { seqno = wrap 1 isn } }

-- The window that a receiver that has had nothing announces.
abbrev first_window : ℕ → ℕ
first_window capacity = min (sub64 capacity 0) (2 ^ 16 - 1)

no_keep_alive : (isn : ℕ) → (wrap 1 isn == sub32 (wrap 1 isn) 1) ≡ false
unfolding wrap
no_keep_alive isn = ground arith

module _ (cfg : TcpConfig) (random_isn : ℕ) where
  -- The connection after `connect`, with its SYN still to be sent.
  abbrev pub connecting : TcpConnection
  connecting =
      endpoint cfg (Receiver.new cfg.recv_capacity)
        (syn_sent cfg.send_capacity cfg.rt_timeout (isn_of cfg.fixed_isn random_isn))
        (syn_of (isn_of cfg.fixed_isn random_isn) ∷ [])

  pub connect_lem : connect (new cfg random_isn) ≡ some connecting
  unfolding connect fill_and_enqueue new enqueue_from stamp syn_sent Receiver.ackno
      Receiver.ackno_of Receiver.state Receiver.new Reassembler.new ByteStream.new Sender.new
  connect_lem =
      rw
        (
          fill_and_enqueue,
          sender_starts cfg.send_capacity cfg.rt_timeout (isn_of cfg.fixed_isn random_isn),
        )
        refl

  -- The connection that has had the SYN of its peer, and answered by its own.
  abbrev pub answering : ℕ → TcpConnection
  answering isn =
      endpoint cfg (opened cfg.recv_capacity isn)
        (syn_sent cfg.send_capacity cfg.rt_timeout (isn_of cfg.fixed_isn random_isn))
        (stamped cfg.recv_capacity isn (syn_of (isn_of cfg.fixed_isn random_isn)) ∷ [])

  reply_syn :
      (isn : ℕ)
      → reply
          (record (answering isn) {
            sender =
                record (syn_sent cfg.send_capacity cfg.rt_timeout
                  (isn_of cfg.fixed_isn random_isn)) {
                    segments_out = syn_of (isn_of cfg.fixed_isn random_isn) ∷ [];
                  };
            segments_out = [];
          })
          (syn_of isn)
        ≡ some (answering isn)
  unfolding reply needs_reply send_empty_segment try_clean_shutdown is_finished enqueue_from stamp
      length_in_sequence_space syn_sent Receiver.ackno Receiver.ackno_of Receiver.abs_ack_no
      Receiver.abs_ack_of Receiver.state Receiver.new Reassembler.new ByteStream.new
  reply_syn isn = refl

  pub answer_lem :
      (isn : ℕ)
      → isn < 2 ^ 32
      → segment_received (new cfg random_isn) (syn_of isn) ≡ some (answering isn)
  unfolding segment_received is_ignored new send_on passive_close Receiver.state Receiver.new
      Reassembler.new ByteStream.new Sender.new Sender.state
  answer_lem isn h =
      let c : TcpConnection =
        endpoint cfg (opened cfg.recv_capacity isn)
          (Sender.new cfg.send_capacity cfg.rt_timeout (isn_of cfg.fixed_isn random_isn)) [] in
      accept_segment_lem (record c { receiver = Receiver.new cfg.recv_capacity }) (answering isn)
        (syn_of isn) (opened cfg.recv_capacity isn)
        (receiver_opens cfg.recv_capacity (syn_of isn) h refl refl refl)
        (send_filled_lem c (answering isn) (syn_of isn)
          (record (syn_sent cfg.send_capacity cfg.rt_timeout (isn_of cfg.fixed_isn random_isn)) {
            segments_out = syn_of (isn_of cfg.fixed_isn random_isn) ∷ [];
          })
          (sender_starts cfg.send_capacity cfg.rt_timeout (isn_of cfg.fixed_isn random_isn))
          (reply_syn isn))

  -- The connection whose SYN was acknowledged by a peer with this capacity.
  abbrev pub open_connection : ℕ → ℕ → List TcpSegment → TcpConnection
  open_connection isn peer_capacity out =
      endpoint cfg (opened cfg.recv_capacity isn)
        (syn_acked cfg.send_capacity cfg.rt_timeout (isn_of cfg.fixed_isn random_isn)
          (first_window peer_capacity))
        out

  reply_syn_ack :
      (isn peer_capacity : ℕ)
      → reply
          (open_connection isn peer_capacity [])
          (stamped peer_capacity (isn_of cfg.fixed_isn random_isn) (syn_of isn))
        ≡ some (
            open_connection isn peer_capacity
              (stamped cfg.recv_capacity isn (ack_of (isn_of cfg.fixed_isn random_isn)) ∷ []))
  unfolding reply needs_reply send_empty_segment try_clean_shutdown is_finished enqueue_from stamp
      length_in_sequence_space syn_acked Receiver.ackno Receiver.ackno_of Receiver.abs_ack_no
      Receiver.abs_ack_of Receiver.state Receiver.new Reassembler.new ByteStream.new
  reply_syn_ack isn peer_capacity = refl

  pub complete_lem :
      (isn peer_capacity : ℕ)
      → isn_of cfg.fixed_isn random_isn < 2 ^ 32
      → isn < 2 ^ 32
      → segment_received
          (record connecting { segments_out = [] })
          (stamped peer_capacity (isn_of cfg.fixed_isn random_isn) (syn_of isn))
        ≡ some (
            open_connection isn peer_capacity
              (stamped cfg.recv_capacity isn (ack_of (isn_of cfg.fixed_isn random_isn)) ∷ []))
  unfolding segment_received is_ignored send_on passive_close syn_sent Receiver.state Receiver.new
      Reassembler.new ByteStream.new Sender.state
  complete_lem isn peer_capacity w h =
      let seg = stamped peer_capacity (isn_of cfg.fixed_isn random_isn) (syn_of isn) in
      let done =
        open_connection isn peer_capacity
          (stamped cfg.recv_capacity isn (ack_of (isn_of cfg.fixed_isn random_isn)) ∷ []) in
      let acked =
        sender_acked cfg.send_capacity cfg.rt_timeout (isn_of cfg.fixed_isn random_isn)
          (first_window peer_capacity) w in
      accept_segment_lem (record connecting { segments_out = [] }) done seg
        (opened cfg.recv_capacity isn) (receiver_opens cfg.recv_capacity seg h refl refl refl)
        (ap
            (λ t.
              send_filled (passive_close (endpoint cfg (opened cfg.recv_capacity isn) t [])) seg)
            acked
          ∙ send_filled_lem (open_connection isn peer_capacity []) done seg
              (syn_acked cfg.send_capacity cfg.rt_timeout (isn_of cfg.fixed_isn random_isn)
                (first_window peer_capacity))
              (nothing_more cfg.send_capacity cfg.rt_timeout (isn_of cfg.fixed_isn random_isn)
                (first_window peer_capacity))
              (reply_syn_ack isn peer_capacity))

  reply_ack :
      (isn peer_capacity : ℕ)
      → reply
          (open_connection isn peer_capacity [])
          (stamped peer_capacity (isn_of cfg.fixed_isn random_isn) (ack_of isn))
        ≡ some (open_connection isn peer_capacity [])
  unfolding reply needs_reply try_clean_shutdown is_finished enqueue_from length_in_sequence_space
      syn_acked Receiver.ackno Receiver.ackno_of Receiver.abs_ack_no Receiver.abs_ack_of
      Receiver.state Receiver.new Reassembler.new ByteStream.new
  reply_ack isn peer_capacity = rw (reply, needs_reply, no_keep_alive isn) refl

  pub establish_lem :
      (isn peer_capacity : ℕ)
      → isn_of cfg.fixed_isn random_isn < 2 ^ 32
      → isn < 2 ^ 32
      → segment_received
          (record (answering isn) { segments_out = [] })
          (stamped peer_capacity (isn_of cfg.fixed_isn random_isn) (ack_of isn))
        ≡ some (open_connection isn peer_capacity [])
  unfolding segment_received is_ignored send_on passive_close syn_sent Receiver.state Receiver.new
      Reassembler.new ByteStream.new Sender.state
  establish_lem isn peer_capacity w h =
      let seg = stamped peer_capacity (isn_of cfg.fixed_isn random_isn) (ack_of isn) in
      let acked =
        sender_acked cfg.send_capacity cfg.rt_timeout (isn_of cfg.fixed_isn random_isn)
          (first_window peer_capacity) w in
      accept_segment_lem (record (answering isn) { segments_out = [] })
        (open_connection isn peer_capacity []) seg (opened cfg.recv_capacity isn)
        (receiver_stays cfg.recv_capacity isn seg h refl refl refl refl)
        (ap
            (λ t.
              send_filled (passive_close (endpoint cfg (opened cfg.recv_capacity isn) t [])) seg)
            acked
          ∙ send_filled_lem (open_connection isn peer_capacity [])
              (open_connection isn peer_capacity []) seg
              (syn_acked cfg.send_capacity cfg.rt_timeout (isn_of cfg.fixed_isn random_isn)
                (first_window peer_capacity))
              (nothing_more cfg.send_capacity cfg.rt_timeout (isn_of cfg.fixed_isn random_isn)
                (first_window peer_capacity))
              (reply_ack isn peer_capacity))
