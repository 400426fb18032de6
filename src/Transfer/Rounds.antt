-- ===== src/Transfer/Rounds.antt =====
-- One round of `TCPSender::fill_window` in a transfer: what it sends is marked with its place.
use cs144_labs.Prelude.{
  ℕ, ◌+◌, ◌-◌, ◌^◌, ◌≤◌, ◌<◌, ◌≡◌, inl, inr, refl, ◌∙◌, true, false, [], ◌∷◌, arith, if◌then◌else◌,
  Bool-cases, length,
}
use cs144_labs.ByteStream
use cs144_labs.ByteStream.{ByteStream, write, end_input}
use cs144_labs.ByteStream.Refinement.{contents}
use cs144_labs.ByteStream.Queue.{peek_refines, pop_refines}
use cs144_labs.Wrapping.{wrap, advance}
use cs144_labs.Segment.{length_in_sequence_space}
use cs144_labs.Sender.{
  TcpSender, state, send_segment, send_size, need_send_fin, next_segment, send_next,
  nothing_to_send,
}
use cs144_labs.Sender.Validity.{IsValid}
use cs144_labs.Sender.Filling.{send_next-fields, send_next-IsValid, length-peek, send_size_lem}
use cs144_labs.Reassembler.Buffer.Holding.{IsPart}
use cs144_labs.Transfer.Marking.{All-append, IsPart-take, IsPart-drop, Placed, IsPast, Sends}

advance-wrap : (n isn : ℕ) → isn < 2 ^ 32 → advance (wrap n isn) 0 ≡ wrap n isn
unfolding wrap
advance-wrap n isn h = omega arith

-- What one round of the loop reads.
record Round (s : TcpSender) : Type 0 where
  peeked : length (next_segment s).payload ≡ send_size s
  fits : send_size s ≤ s.stream.used_size
  new_read : (send_next s).stream.bytes_read ≡ s.stream.bytes_read + send_size s
  new_used : (send_next s).stream.used_size ≡ s.stream.used_size - send_size s
  fin_ends :
      (next_segment s).header.fin ≡ true
      → (s.stream.input_ended ≡ true) × (s.stream.used_size ≡ send_size s)

send_next-Round :
    (f : ℕ → ℕ) (isn total : ℕ) (s : TcpSender) → Sends f isn total s → total < 2 ^ 31 → Round s
unfolding send_next send_segment next_segment ByteStream.pop_output
send_next-Round f isn total s v small =
    let (a, b, c, d) = send_size_lem s in
    let counted = v.counted in
    record {
      peeked = length-peek (send_size s) v.valid.stream_valid a;
      fits = a;
      new_read = omega arith;
      new_used = omega arith;
      fin_ends = λ e. ground arith;
    }

next_segment-Placed :
    (f : ℕ → ℕ) (isn total : ℕ) (s : TcpSender)
    → Sends f isn total s
    → total < 2 ^ 31
    → s.next_seq_no ≡ s.stream.bytes_read + 1
    → Placed f isn total s.stream.input_ended (next_segment s)
next_segment-Placed f isn total s v small at =
    let r = send_next-Round f isn total s v small in
    record {
      index = s.stream.bytes_read;
      number =
          unfold next_segment in
          advance-wrap s.next_seq_no s.isn v.valid.isn_word ∙ rw (at, v.same_isn) refl;
      part =
          unfold next_segment in
          rw (peek_refines (send_size s) v.valid.stream_valid)
            (IsPart-take f (send_size s) (contents s.stream) s.stream.bytes_read v.part);
      inside = omega (arith, r.peeked, r.fits, v.counted);
      last = λ e.
          let (ended, whole) = r.fin_ends e in (ended, omega (arith, r.peeked, whole, v.counted));
      opens = unfold next_segment in λ e. cc;
    }

-- After the FIN there is nothing to send.
pub nothing_after_fin :
    (s : TcpSender)
    → IsValid s
    → s.stream.error ≡ false
    → s.next_seq_no ≡ s.stream.bytes_read + 2
    → s.stream.used_size ≡ 0
    → s.stream.input_ended ≡ true
    → nothing_to_send s ≡ true
unfolding nothing_to_send need_send_fin state
nothing_after_fin s v e at used ended = ground (arith, v.stream_valid.counted, v.next_word)

length-next_segment-fin :
    (s : TcpSender)
    → length (next_segment s).payload < 2 ^ 63
    → length_in_sequence_space (next_segment s)
      ≡ length (next_segment s).payload + (if (next_segment s).header.fin then 1 else 0)
unfolding length_in_sequence_space next_segment
length-next_segment-fin s h = ground arith

pub send_next-IsPast :
    (f : ℕ → ℕ) (isn total : ℕ) (s : TcpSender)
    → Sends f isn total s
    → total < 2 ^ 31
    → s.next_seq_no ≡ s.stream.bytes_read + 1
    → IsPast (send_next s)
send_next-IsPast f isn total s v small at =
    let r = send_next-Round f isn total s v small in
    let (next, _, _, _, _, _, _) = send_next-fields s in
    let counted = v.counted in
    let long = length-next_segment-fin s (omega (arith, r.peeked, r.fits)) in
    elim (Bool-cases (next_segment s).header.fin) [
      | inl e ↦
          let (ended, whole) = r.fin_ends e in
          let one : length_in_sequence_space (next_segment s) ≡ send_size s + 1 =
            ground (arith, long, r.peeked) in
          inr (
            omega (arith, next, one, r.new_read, r.fits),
            omega (arith, r.new_used),
            unfold send_next send_segment ByteStream.pop_output in ended,
          )
      | inr e ↦
          let none_more : length_in_sequence_space (next_segment s) ≡ send_size s =
            ground (arith, long, r.peeked) in
          inl (omega (arith, next, none_more, r.new_read, r.fits))
    ]

-- The numbers in use are few.
pub next_bound :
    (f : ℕ → ℕ) (isn total : ℕ) (s : TcpSender) → Sends f isn total s → s.next_seq_no ≤ total + 2
next_bound f isn total s v =
    let counted = v.counted in
    elim v.at [ inl p ↦ omega arith | inr q ↦ elim q [ inl p ↦ omega arith | inr p ↦ omega arith ] ]

pub send_next-Sends :
    (f : ℕ → ℕ) (isn total : ℕ) (s : TcpSender)
    → Sends f isn total s
    → total < 2 ^ 31
    → nothing_to_send s ≡ false
    → s.next_seq_no ≡ s.stream.bytes_read + 1
    → Sends f isn total (send_next s)
send_next-Sends f isn total s v small busy at =
    let r = send_next-Round f isn total s v small in
    let acked = v.valid.acked_sent in
    let placed = next_segment-Placed f isn total s v small at in
    record {
      valid = send_next-IsValid s v.valid busy (omega (arith, next_bound f isn total s v));
      same_isn = unfold send_next send_segment in v.same_isn;
      no_error = unfold send_next send_segment ByteStream.pop_output in v.no_error;
      counted = omega (arith, r.new_read, r.new_used, r.fits, v.counted);
      part = later_part;
      at = inr (send_next-IsPast f isn total s v small at);
      out_placed =
          unfold send_next send_segment ByteStream.pop_output in
          All-append _ s.segments_out (next_segment s ∷ []) v.out_placed (placed, tt);
      outstanding_placed =
          unfold send_next send_segment ByteStream.pop_output in
          All-append _ s.outstanding_segments (next_segment s ∷ []) v.outstanding_placed
            (placed, tt);
    }
  where
    later_part : IsPart f (contents (send_next s).stream) (send_next s).stream.bytes_read
    later_part =
        let r = send_next-Round f isn total s v small in
        let (_, _, _, _, stream, _, _) = send_next-fields s in
        rw (r.new_read, stream, pop_refines (send_size s) v.valid.stream_valid)
          (IsPart-drop f (send_size s) (contents s.stream) s.stream.bytes_read v.part)
