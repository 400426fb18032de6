-- ===== src/Connection/Ticking.antt =====
-- `TCPConnection::tick`, the destructor, and the calls of the writer.
use cs144_labs.Prelude.{
  ℕ, ◌≤◌, ◌<◌, ◌≡◌, inl, inr, refl, ap, ◌∙◌, true, false, not, ◌&&◌, some, List, [], ◌∷◌, ◌++◌,
  arith, if◌then◌else◌, lt→ltb, le→ltb, Bool-cases, if_true, if_false, add64,
}
use native.Mathlib.Decide.{dec_lt}
use cs144_labs.Segment.{TcpSegment}
use cs144_labs.Config.{max_retx_attempts}
use cs144_labs.Receiver
use cs144_labs.Sender
use cs144_labs.Sender.{
  TcpSender, fill_window, send_empty_segment, is_empty, empty_segment, consecutive_retransmissions,
}
use cs144_labs.Sender.Validity.{IsValid}
use cs144_labs.Sender.Ticking.{tick_cases}
use cs144_labs.Connection.{
  TcpConnection, with_rst, enqueue_from, enqueue_segments, is_finished, unclean_shutdown,
  fill_and_enqueue, after_tick, tick, destroy,
}
use cs144_labs.Connection.Enqueueing.{enqueue_segments_all, try_clean_shutdown_lem}
use cs144_labs.Connection.Answering.{Flushed, flushed, flushed-Flushed}

-- There is a segment to send after `send_empty_segment`.
send_empty_segment_front :
    (s : TcpSender)
    → (seg : TcpSegment) × (rest : List TcpSegment) × ((send_empty_segment s).segments_out
        ≡ seg ∷ rest)
unfolding send_empty_segment
send_empty_segment_front s = by_queue s.segments_out refl
  where
    by_queue :
        (segs : List TcpSegment)
        → s.segments_out ≡ segs
        → (seg : TcpSegment) × (rest : List TcpSegment) × ((if is_empty s.segments_out
              then record s { segments_out = empty_segment s ∷ [] }
              else s).segments_out
            ≡ seg ∷ rest)
    by_queue [] e = (empty_segment s, [], rw e refl)
    by_queue (seg ∷ rest) e = (seg, rest, rw e refl)

-- With RST, the front segment alone is sent, with the flag.
enqueue_segments_rst :
    (c : TcpConnection) (seg : TcpSegment) (rest : List TcpSegment)
    → c.need_send_rst ≡ true
    → c.sender.segments_out ≡ seg ∷ rest
    → enqueue_segments c ≡ record c {
      segments_out = c.segments_out ++ with_rst seg ∷ [];
      sender = record c.sender { segments_out = record seg { payload = [] } ∷ rest };
    }
unfolding enqueue_from
enqueue_segments_rst c seg rest e f = ap (enqueue_from c) f ∙ if_true _ _ e

-- The connection before its RST is enqueued.
abbrev resetting : TcpConnection → TcpConnection
resetting c = record c { need_send_rst = true; sender = send_empty_segment c.sender }

-- A connection that is given up: it is not active, both streams are in error, and one segment with RST
-- was sent.
pub record Aborted (c c' : TcpConnection) : Type 0 where
  pub inactive : c'.active ≡ false
  pub no_linger : c'.linger_after_stream_finish ≡ false
  pub receiver_error : Receiver.state c'.receiver ≡ Receiver.State.error
  pub sender_error : Sender.state c'.sender ≡ Sender.State.error
  pub rst_sent :
      (seg : TcpSegment) × (c'.segments_out ≡ c.segments_out ++ seg ∷ []) × (seg.header.rst ≡ true)

sender_error :
    (s : TcpSender) (segs : List TcpSegment)
    → s.stream.error ≡ true
    → Sender.state (record s { segments_out = segs }) ≡ Sender.State.error
unfolding Sender.state
sender_error s segs e = rw e refl

error-send_empty_segment : (s : TcpSender) → (send_empty_segment s).stream.error ≡ s.stream.error
unfolding send_empty_segment
error-send_empty_segment s = elim (Bool-cases (is_empty s.segments_out)) [
  | inl e ↦ rw e refl
  | inr e ↦ rw e refl
]

abort_lem :
    (c : TcpConnection)
    → (c' : TcpConnection) × (enqueue_segments (resetting (unclean_shutdown c)) ≡ c') × Aborted c c'
unfolding unclean_shutdown Receiver.state
abort_lem c =
    let d = resetting (unclean_shutdown c) in
    let (seg, rest, front) = send_empty_segment_front (unclean_shutdown c).sender in
    (
      record d {
        segments_out = c.segments_out ++ with_rst seg ∷ [];
        sender = record d.sender { segments_out = record seg { payload = [] } ∷ rest };
      },
      enqueue_segments_rst d seg rest refl front,
      record {
        inactive = refl;
        no_linger = refl;
        receiver_error = refl;
        sender_error =
            sender_error d.sender (record seg { payload = [] } ∷ rest)
              (error-send_empty_segment (unclean_shutdown c).sender);
        rst_sent = (with_rst seg, refl, refl);
      },
    )

after_tick_alive :
    (c : TcpConnection)
    → c.need_send_rst ≡ false
    → consecutive_retransmissions c.sender ≤ max_retx_attempts
    → after_tick c ≡ flushed c c.sender (c.active && not (is_finished c))
unfolding after_tick
after_tick_alive c e h =
    ap enqueue_segments (
      if_false _ _ (le→ltb max_retx_attempts (consecutive_retransmissions c.sender) h)
      ∙ try_clean_shutdown_lem c)
    ∙ enqueue_segments_all (record c { active = c.active && not (is_finished c) }) e

after_tick_dead :
    (c : TcpConnection)
    → max_retx_attempts < consecutive_retransmissions c.sender
    → (c' : TcpConnection) × (after_tick c ≡ c') × Aborted c c'
unfolding after_tick
after_tick_dead c h =
    let (c', run, aborted) = abort_lem c in
    (
      c',
      ap enqueue_segments
            (if_true _ _ (lt→ltb max_retx_attempts (consecutive_retransmissions c.sender) h))
          ∙ run,
      aborted,
    )

tick-after_tick :
    (c : TcpConnection) (ms : ℕ) (s : TcpSender)
    → Sender.tick c.sender ms ≡ some s
    → tick c ms
      ≡ some
          (after_tick (record c { ms_since_last_recv = add64 c.ms_since_last_recv ms; sender = s }))
unfolding tick
tick-after_tick c ms s e = rw (tick, e) refl

-- Where the sender is valid and no RST is asked for, `tick` never fails: the sender's `tick` leaves it
-- as `s`. If its count of retransmissions in a row is no more than `MAX_RETX_ATTEMPTS`, all that `s` has
-- is enqueued in order, with the acknowledgment and the window of the receiver, its queue is left empty,
-- the receiver is as it was, and the connection ends only if it is finished. Beyond that it is aborted,
-- and a segment with RST is the one that is sent.
pub tick_lem :
    (c : TcpConnection) (ms : ℕ)
    → IsValid c.sender
    → c.need_send_rst ≡ false
    → (s : TcpSender) × (Sender.tick c.sender ms ≡ some s)
      × ((c' : TcpConnection) × (tick c ms ≡ some c')
          × (consecutive_retransmissions s ≤ max_retx_attempts
              → Flushed c.segments_out s c'
                × (c'.receiver ≡ c.receiver)
                × (c'.active ≡ (
                    c.active
                    && not (
                        is_finished (record c {
                          ms_since_last_recv = add64 c.ms_since_last_recv ms;
                          sender = s;
                        })))))
          × (max_retx_attempts < consecutive_retransmissions s → Aborted c c'))
tick_lem c ms v e =
    let (s, run, valid, _) = tick_cases c.sender ms v in
    let c1 = record c { ms_since_last_recv = add64 c.ms_since_last_recv ms; sender = s } in
    let active = c.active && not (is_finished c1) in
    (
      s,
      run,
      elim (dec_lt max_retx_attempts (consecutive_retransmissions s)) [
        | yes p ↦
            let (c', dead, aborted) = after_tick_dead c1 p in
            (
              c',
              tick-after_tick c ms s run ∙ ap some dead,
              λ q. absurd (omega arith),
              λ _. record {
                inactive = aborted.inactive;
                no_linger = aborted.no_linger;
                receiver_error = aborted.receiver_error;
                sender_error = aborted.sender_error;
                rst_sent = aborted.rst_sent;
              },
            )
        | no p ↦ (
          flushed c1 s active,
          tick-after_tick c ms s run ∙ ap some (after_tick_alive c1 e (omega arith)),
          λ _. (flushed-Flushed c1 s active valid e, refl, refl),
          λ q. absurd (p q),
        )
      ],
    )

-- The destructor of an active connection sends one segment more, with RST; that of an inactive one
-- does nothing.
pub destroy_lem :
    (c : TcpConnection)
    → (c.active ≡ true
        → (seg : TcpSegment) × ((destroy c).segments_out ≡ c.segments_out ++ with_rst seg ∷ []))
      × (c.active ≡ false → destroy c ≡ c)
unfolding destroy
destroy_lem c =
    let (seg, rest, front) = send_empty_segment_front c.sender in
    (
      λ e. (
        seg,
        ap (λ t. t.segments_out)
            (if_true _ _ e ∙ enqueue_segments_rst (resetting c) seg rest refl front),
      ),
      λ e. if_false _ _ e,
    )

-- What `fill_and_enqueue` makes of the sender that has filled the window.
pub fill_and_enqueue_lem :
    (c : TcpConnection) (s : TcpSender)
    → fill_window c.sender ≡ some s
    → c.need_send_rst ≡ false
    → fill_and_enqueue c ≡ some (flushed c s c.active)
unfolding fill_and_enqueue
fill_and_enqueue_lem c s run e =
    rw (fill_and_enqueue, run) (ap some (enqueue_segments_all (record c { sender = s }) e))
