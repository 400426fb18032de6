-- ===== src/Connection/Handling.antt =====
-- `TCPConnection::segment_received`, and the calls that end in `enqueue_segments`.
use cs144_labs.Prelude.{
  ℕ, ◌+◌, ◌^◌, ◌≤◌, ◌<◌, ◌≡◌, inl, inr, refl, sym, ap, ◌∙◌, true, false, some, ◌++◌, arith,
  if◌then◌else◌, Bool-cases, if_false, length,
}
use mathlib.Core.List.{map}
use mathlib.Core.Path.{subst}
use cs144_labs.Segment.{TcpSegment}
use cs144_labs.Wrapping.{wrap}
use cs144_labs.Receiver
use cs144_labs.Receiver.{TcpReceiver, is_syn_recv, is_listening, window_size}
use cs144_labs.Receiver.Validity.{Receives}
use cs144_labs.Receiver.Receiving.{
  Received, first_number, segment_received-Received, is_listening-Receives,
}
use cs144_labs.Reassembler.Buffer.Holding.{IsPart}
use cs144_labs.Sender
use cs144_labs.Sender.{TcpSender, ack_received, fill_window, send_empty_segment, is_empty}
use cs144_labs.Sender.Validity.{IsValid}
use cs144_labs.Sender.Acking.{ack_received-IsValid}
use cs144_labs.Sender.Filling.{Filled, fill_window-Filled}
use cs144_labs.Connection.{
  TcpConnection, unclean_shutdown, tell_sender, reply, send_on, send_filled, accept_segment,
  is_ignored, segment_received,
}
use cs144_labs.Connection.Answering.{
  Flushed, acknowledging, due, Answered, needs_reply-due, replying, replying-IsValid,
  replying-Answered, flushed, reply_lem, flushed-Flushed, enqueued-acknowledging,
}
use cs144_labs.Connection.Enqueueing.{passive_close_flags}

-- LISTEN ignores all but a SYN without ACK and RST.
pub ignored_same :
    (c : TcpConnection) (seg : TcpSegment)
    → is_ignored c seg ≡ true
    → segment_received c seg ≡ some c
unfolding segment_received
ignored_same c seg e = rw e refl

-- A RST that is not ignored puts both streams in error and ends the connection, and nothing is sent.
pub rst_kills :
    (c : TcpConnection) (seg : TcpSegment)
    → is_ignored c seg ≡ false
    → seg.header.rst ≡ true
    → (c' : TcpConnection) × (segment_received c seg ≡ some c')
      × (c'.active ≡ false)
      × (c'.linger_after_stream_finish ≡ false)
      × (Receiver.state c'.receiver ≡ Receiver.State.error)
      × (Sender.state c'.sender ≡ Sender.State.error)
      × (c'.segments_out ≡ c.segments_out)
      × (c'.ms_since_last_recv ≡ 0)
unfolding segment_received unclean_shutdown Receiver.state Sender.state
rst_kills c seg e f = (
  unclean_shutdown (record c { ms_since_last_recv = 0 }),
  rw (e, f) refl,
  refl,
  refl,
  refl,
  refl,
  refl,
  refl,
)

-- The acknowledgment takes no sequence number.
next_seq_no-tell_sender :
    (s : TcpSender) (seg : TcpSegment) → (tell_sender s seg).next_seq_no ≡ s.next_seq_no
unfolding ack_received Sender.accept_ack
next_seq_no-tell_sender s seg = ground arith

tell_sender-IsValid :
    (s : TcpSender) (seg : TcpSegment)
    → IsValid s
    → s.next_seq_no + 2 ^ 16 < 2 ^ 63
    → seg.header.win < 2 ^ 16
    → IsValid (tell_sender s seg)
tell_sender-IsValid s seg v w l = elim (Bool-cases seg.header.ack) [
  | inl e ↦
      rw e
        (ack_received-IsValid s seg.header.ackno seg.header.win v (omega (arith, v.acked_sent)) l)
  | inr e ↦ rw e v
]

pub send_filled_lem :
    (c d : TcpConnection) (seg : TcpSegment) (s : TcpSender)
    → fill_window c.sender ≡ some s
    → reply (record c { sender = s }) seg ≡ some d
    → send_filled c seg ≡ some d
unfolding send_filled
send_filled_lem c d seg s run done = rw (send_filled, run) done

send_on-Flushed :
    {stream : ℕ → ℕ} {isn : ℕ} (c : TcpConnection) (seg : TcpSegment)
    → Receives stream isn c.receiver
    → IsValid c.sender
    → c.sender.next_seq_no + 2 ^ 16 < 2 ^ 63
    → seg.header.win < 2 ^ 16
    → c.need_send_rst ≡ false
    → (c' : TcpConnection) × (filled answered : TcpSender) × (send_on c seg ≡ some c')
      × (fill_window (tell_sender c.sender seg) ≡ some filled)
      × Filled (tell_sender c.sender seg) filled
      × Answered (due c.receiver isn seg) filled answered
      × Flushed c.segments_out answered c'
      × (c'.receiver ≡ c.receiver)
      × (c'.ms_since_last_recv ≡ c.ms_since_last_recv)
unfolding send_on
send_on-Flushed {isn = isn} c seg r v w l e =
    let told = tell_sender c.sender seg in
    let told_valid = tell_sender-IsValid c.sender seg v w l in
    let (linger, active, closing) = passive_close_flags (record c { sender = told }) in
    let (s, run, filled, _) =
      fill_window-Filled told told_valid
        (omega (arith, told_valid.acked_sent, next_seq_no-tell_sender c.sender seg)) in
    let b = due c.receiver isn seg in
    let c2 = record c { sender = s; linger_after_stream_finish = linger; active = active } in
    let (active', done) = reply_lem c2 seg b (needs_reply-due seg r) e in
    (
      flushed c2 (replying s b) active',
      s,
      replying s b,
      ap (λ t. send_filled t seg) closing
          ∙ send_filled_lem
              (record c { sender = told; linger_after_stream_finish = linger; active = active })
              (flushed c2 (replying s b) active') seg s run done,
      run,
      filled,
      replying-Answered s b,
      flushed-Flushed c2 (replying s b) active' (replying-IsValid s b filled.valid) e,
      refl,
      refl,
    )

pub accept_segment_lem :
    (c d : TcpConnection) (seg : TcpSegment) (r : TcpReceiver)
    → Receiver.segment_received c.receiver seg ≡ some r
    → send_on (record c { receiver = r }) seg ≡ some d
    → accept_segment c seg ≡ some d
unfolding accept_segment
accept_segment_lem c d seg r run done = rw (accept_segment, run) done

not_ignored :
    (c : TcpConnection) (seg : TcpSegment)
    → is_listening (Receiver.state c.receiver) ≡ false
    → is_ignored c seg ≡ false
unfolding is_ignored
not_ignored c seg e = rw e refl

segment_received-accept_segment :
    (c : TcpConnection) (seg : TcpSegment)
    → is_listening (Receiver.state c.receiver) ≡ false
    → seg.header.rst ≡ false
    → segment_received c seg ≡ accept_segment (record c { ms_since_last_recv = 0 }) seg
unfolding segment_received
segment_received-accept_segment c seg e f =
    if_false (some c) _ (not_ignored c seg e)
    ∙ if_false (some (unclean_shutdown (record c { ms_since_last_recv = 0 }))) _ f

-- While the counters are far from the end of their words, a segment of the stream that comes after the
-- SYN, lies within 2 ^ 31 of what is written, ends in the window and has no RST is never refused. The
-- receiver takes it as `TCPReceiver` promises. The sender hears the acknowledgment and the window, if
-- the segment has them, and then fills the window as `fill_window` promises. If it has nothing to send
-- then, and only then, it adds an empty segment with the next number, provided that the segment takes a
-- sequence number, or comes while the inbound stream is open and has the number before the one that is
-- acknowledged. All that it has is enqueued, in order, with the acknowledgment and the window that
-- include this segment, and its queue is left empty.
pub segment_received-Flushed :
    (stream : ℕ → ℕ) (isn : ℕ) (c : TcpConnection) (seg : TcpSegment) (index : ℕ)
    → Receives stream isn c.receiver
    → IsValid c.sender
    → c.need_send_rst ≡ false
    → c.receiver.reassembler.output.bytes_written + 2 ^ 33 < 2 ^ 64
    → c.receiver.reassembler.output.bytes_written + c.receiver.capacity < 2 ^ 64
    → c.sender.next_seq_no + 2 ^ 16 < 2 ^ 63
    → seg.header.rst ≡ false
    → seg.header.win < 2 ^ 16
    → first_number seg ≡ wrap (index + 1) isn
    → index < c.receiver.reassembler.output.bytes_written + 2 ^ 31
    → c.receiver.reassembler.output.bytes_written + 1 ≤ index + 2 ^ 31
    → IsPart stream seg.payload index
    → index + length seg.payload
      ≤ c.receiver.reassembler.output.bytes_written + window_size c.receiver
    → let told =
        if seg.header.ack
        then ack_received c.sender seg.header.ackno seg.header.win
        else c.sender in
      (c' : TcpConnection) × (filled answered : TcpSender) × (segment_received c seg ≡ some c')
      × Received stream isn c.receiver index (length seg.payload) seg.header.fin c'.receiver
      × (fill_window told ≡ some filled)
      × Filled told filled
      × Answered (due c'.receiver isn seg) filled answered
      × Flushed c.segments_out answered c'
      × (c'.segments_out
          ≡ c.segments_out
            ++ map
                (acknowledging
                  (wrap (Receiver.abs_ack_no c'.receiver) isn)
                  (window_size c'.receiver))
                answered.segments_out)
      × (c'.ms_since_last_recv ≡ 0)
segment_received-Flushed stream isn c seg index r v e w w' sw no_rst l first h k part inside =
    let (receiver, run, received) =
      segment_received-Received stream isn c.receiver seg index r w w' first h k part inside in
    let heard = record c { ms_since_last_recv = 0; receiver = receiver } in
    let (c', s, answered, sent, filled_run, filled, answers, done, same, ms) =
      send_on-Flushed heard seg received.receives v sw l e in
    let taken =
      subst (λ t. Received stream isn c.receiver index (length seg.payload) seg.header.fin t)
        (sym same) received in
    (
      c',
      s,
      answered,
      segment_received-accept_segment c seg (is_listening-Receives r) no_rst
          ∙ accept_segment_lem (record c { ms_since_last_recv = 0 }) c' seg receiver run sent,
      taken,
      filled_run,
      filled,
      subst (λ t. Answered (due t isn seg) s answered) (sym same) answers,
      done,
      done.enqueued ∙ enqueued-acknowledging c.segments_out answered.segments_out taken.receives,
      ms,
    )
