-- ===== src/Connection/Answering.antt =====
-- The answer of `TCPConnection::segment_received` to a segment, and what it enqueues.
use cs144_labs.Prelude.{
  ℕ, ◌-◌, ◌^◌, min, ◌≡◌, ◌⊎◌, inl, inr, refl, ap, ◌∙◌, Bool, true, false, not, ◌&&◌, ◌||◌, some,
  List, [], ◌∷◌, ◌++◌, ltb, ◌==◌, if◌then◌else◌, Bool-cases, sub32,
}
use mathlib.Core.List.{map}
use cs144_labs.Segment.{TcpSegment, length_in_sequence_space}
use cs144_labs.Wrapping.{wrap}
use cs144_labs.Receiver
use cs144_labs.Receiver.{TcpReceiver, is_syn_recv, is_listening, window_size}
use cs144_labs.Receiver.Validity.{Receives, ackno-Receives}
use cs144_labs.Sender
use cs144_labs.Sender.{TcpSender, ack_received, fill_window, send_empty_segment, is_empty}
use cs144_labs.Sender.Validity.{IsValid}
use cs144_labs.Sender.Ticking.{send_empty_segment-IsValid, timer-IsValid}
use cs144_labs.Connection
use cs144_labs.Connection.{
  TcpConnection, with_ack, enqueue_segments, is_finished, unclean_shutdown, is_before, needs_reply,
  tell_sender, reply, send_on, send_filled, accept_segment, is_ignored, segment_received,
}
use cs144_labs.Connection.Enqueueing.{enqueue_segments_all, try_clean_shutdown_lem}

-- What a call leaves behind that enqueues, without RST, all that `s` has: the sender is `s` with an
-- empty queue, and valid; and its segments follow those that waited, in order, with the acknowledgment
-- and the window of the receiver.
pub record Flushed (out : List TcpSegment) (s : TcpSender) (c' : TcpConnection) : Type 0 where
  pub valid : IsValid c'.sender
  pub taken : c'.sender ≡ record s { segments_out = [] }
  pub no_rst : c'.need_send_rst ≡ false
  pub enqueued : c'.segments_out ≡ out ++ map (with_ack c'.receiver) s.segments_out

-- A segment with an acknowledgment and a window, which the header cuts to 16 bits.
abbrev pub acknowledging : ℕ → ℕ → TcpSegment → TcpSegment
acknowledging ackno window seg = record seg {
  header = record seg.header { ack = true; ackno = ackno; win = min window (2 ^ 16 - 1) };
}

-- Whether a segment is answered in any case: if it takes a sequence number, or is the probe of a peer
-- that wants a sign of life, with the number before the one that the receiver acknowledges.
abbrev pub due : TcpReceiver → ℕ → TcpSegment → Bool
due r isn seg =
    ltb 0 (length_in_sequence_space seg)
    || (is_syn_recv (Receiver.state r)
        && (seg.header.seqno == sub32 (wrap (Receiver.abs_ack_no r) isn) 1))

-- The sender once it has answered: as it was, if no answer is due or it has something to send anyway;
-- and if not, with an empty segment that has the next number.
abbrev pub Answered : Bool → TcpSender → TcpSender → Type 0
Answered must filled answered =
    ((answered ≡ filled) × ((must ≡ false) ⊎ (is_empty filled.segments_out ≡ false)))
    ⊎ ((must ≡ true)
        × (filled.segments_out ≡ [])
        × ((seg : TcpSegment) × (answered ≡ record filled { segments_out = seg ∷ [] })
            × (seg.header.seqno ≡ wrap filled.next_seq_no filled.isn)
            × (length_in_sequence_space seg ≡ 0)))

-- A receiver that has the SYN can always tell whether to reply.
pub needs_reply-due :
    {stream : ℕ → ℕ} {isn : ℕ} {r : TcpReceiver} (seg : TcpSegment)
    → Receives stream isn r
    → needs_reply r seg ≡ some (due r isn seg)
unfolding needs_reply
needs_reply-due {isn = isn} {r = r} seg v =
    elim (Bool-cases (ltb 0 (length_in_sequence_space seg))) [
      | inl e ↦ rw e refl
      | inr e ↦ elim (Bool-cases (is_syn_recv (Receiver.state r))) [
        | inl f ↦ rw (e, f) (ap (is_before seg.header.seqno) (ackno-Receives v))
        | inr f ↦ rw (e, f) refl
      ]
    ]

-- The sender after the reply, before its segments are taken.
abbrev pub replying : TcpSender → Bool → TcpSender
replying s b = if b then send_empty_segment s else s

pub replying-IsValid : (s : TcpSender) (b : Bool) → IsValid s → IsValid (replying s b)
replying-IsValid s true v = (send_empty_segment-IsValid s v).0
replying-IsValid s false v = v

empty_queue : (segs : List TcpSegment) → is_empty segs ≡ true → segs ≡ []
empty_queue [] e = refl
empty_queue (seg ∷ segs) e = cc

pub replying-Answered : (s : TcpSender) (b : Bool) → Answered b s (replying s b)
unfolding send_empty_segment length_in_sequence_space
replying-Answered s true = elim (Bool-cases (is_empty s.segments_out)) [
  | inl f ↦
      inr (refl, empty_queue s.segments_out f, (Sender.empty_segment s, rw f refl, refl, refl))
  | inr f ↦ inl (rw f refl, inr f)
]
replying-Answered s false = inl (refl, inl refl)

-- A connection whose queue of the sender is taken.
abbrev pub flushed : TcpConnection → TcpSender → Bool → TcpConnection
flushed c s active = record c {
  active = active;
  sender = record s { segments_out = [] };
  segments_out = c.segments_out ++ map (with_ack c.receiver) s.segments_out;
}

pub reply_lem :
    (c : TcpConnection) (seg : TcpSegment) (b : Bool)
    → needs_reply c.receiver seg ≡ some b
    → c.need_send_rst ≡ false
    → (active : Bool) × (reply c seg ≡ some (flushed c (replying c.sender b) active))
unfolding reply
reply_lem c seg b e f =
    let c1 = record c { sender = replying c.sender b } in
    (
      c1.active && not (is_finished c1),
      rw (reply, e)
          (ap some (
            ap enqueue_segments (try_clean_shutdown_lem c1)
            ∙ enqueue_segments_all (record c1 { active = c1.active && not (is_finished c1) }) f)),
    )

pub flushed-Flushed :
    (c : TcpConnection) (s : TcpSender) (active : Bool)
    → IsValid s
    → c.need_send_rst ≡ false
    → Flushed c.segments_out s (flushed c s active)
flushed-Flushed c s active v e = record {
  valid = timer-IsValid s s.timer s.retransmission_count [] v refl;
  taken = refl;
  no_rst = e;
  enqueued = refl;
}

-- The acknowledgment and the window of a receiver that has the SYN.
pub enqueued-acknowledging :
    {stream : ℕ → ℕ} {isn : ℕ} {r : TcpReceiver} (out segs : List TcpSegment)
    → Receives stream isn r
    → out ++ map (with_ack r) segs
      ≡ out ++ map (acknowledging (wrap (Receiver.abs_ack_no r) isn) (window_size r)) segs
unfolding Connection.stamp
enqueued-acknowledging {r = r} out segs v =
    ap (λ o. out ++ map (Connection.stamp o (window_size r)) segs) (ackno-Receives v)
