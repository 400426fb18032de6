-- ===== src/Transfer/Writing.antt =====
-- The writer of a transfer: a new sender, writes to its stream, and the end of it.
use cs144_labs.Prelude.{
  ℕ, ◌+◌, ◌-◌, ◌^◌, ◌<◌, ◌≡◌, inl, inr, refl, sym, ap, ◌∙◌, true, false, List, ◌++◌, arith, length,
  take, length-append, length-take,
}
use mathlib.Core.Path.{subst}
use cs144_labs.ByteStream
use cs144_labs.ByteStream.{ByteStream, write, end_input}
use cs144_labs.ByteStream.Validity
use cs144_labs.ByteStream.Refinement.{contents, length-contents}
use cs144_labs.ByteStream.Queue.{write_refines}
use cs144_labs.Sender
use cs144_labs.Sender.{
  TcpSender, state, is_closed, send_segment, send_size, syn_segment, need_send_fin, next_segment,
  send_next, nothing_to_send, fill_loop, fill_window, drop_acked, accept_ack, ack_received,
  retransmit, tick,
}
use cs144_labs.Sender.Validity.{new-IsValid}
use cs144_labs.Reassembler.Buffer.Holding.{IsPart}
use cs144_labs.Transfer.Marking.{All-map, IsPart-append, Placed-later, Sends}
use cs144_labs.ByteStream.Refinement.{used_size-write}
use cs144_labs.ByteStream.History.{take-count}
use cs144_labs.Transfer.Marking.{IsPart-right}
use cs144_labs.Sender.Validity.{stream-IsValid}

-- A new sender.
pub new-Sends :
    (f : ℕ → ℕ) (capacity timeout isn : ℕ)
    → 0 < capacity
    → capacity < 2 ^ 63
    → isn < 2 ^ 32
    → Sends f isn 0 (Sender.new capacity timeout isn)
unfolding Sender.new ByteStream.new
new-Sends f capacity timeout isn h k l = record {
  valid = unfold Sender.new ByteStream.new in new-IsValid capacity timeout isn h k l;
  same_isn = refl;
  no_error = refl;
  counted = refl;
  part = λ i p. absurd (omega (arith, length-contents (ByteStream.new capacity)));
  at = inl (refl, refl);
  out_placed = tt;
  outstanding_placed = tt;
}

-- What a write does to the counters.
pub write-counters :
    (b : ByteStream) (bytes : List ℕ)
    → Validity.IsValid b
    → let (b', count) = write b bytes in
      (b'.used_size ≡ b.used_size + length (take count bytes))
      × (b'.bytes_read ≡ b.bytes_read)
      × (b'.input_ended ≡ b.input_ended)
      × (b'.error ≡ b.error)
write-counters b bytes v =
    let used = used_size-write bytes v in
    let shown = length-take (b.capacity - length (contents b)) bytes in
    (
      rw (take-count bytes v) (omega (arith, used, shown, length-contents b)),
      unfold write in ground arith,
      unfold write in ground arith,
      unfold write in ground arith,
    )

-- Writing to the stream, before its end.
pub write-Sends :
    (f : ℕ → ℕ) (isn : ℕ) (given bytes : List ℕ) (s : TcpSender)
    → Sends f isn (length given) s
    → s.stream.input_ended ≡ false
    → IsPart f (given ++ take (write s.stream bytes).1 bytes) 0
    → Sends f isn
        (length (given ++ take (write s.stream bytes).1 bytes))
        (record s { stream = (write s.stream bytes).0 })
write-Sends f isn given bytes s v open_input part =
    let (used, read, ended, error) = write-counters s.stream bytes v.valid.stream_valid in
    let more = take (write s.stream bytes).1 bytes in
    let counted = v.counted in
    let total = length-append given more in
    let whole : contents (write s.stream bytes).0 ≡ contents s.stream ++ more =
      (write_refines bytes v.valid.stream_valid).0
      ∙ ap (◌++◌ (contents s.stream)) (sym (take-count bytes v.valid.stream_valid)) in
    let moved =
      Placed-later f isn (length given) (length (given ++ more)) s.stream.input_ended
        (write s.stream bytes).0.input_ended (omega arith) (λ e. cc) in
    record {
      valid =
          stream-IsValid s (write s.stream bytes).0 v.valid
            (Validity.write-IsValid bytes v.valid.stream_valid);
      same_isn = v.same_isn;
      no_error = error ∙ v.no_error;
      counted = omega arith;
      part =
          rw (read, whole)
            (IsPart-append f (contents s.stream) more s.stream.bytes_read v.part (
              subst (IsPart f more) (omega (arith, length-contents s.stream))
                (IsPart-right f given more 0 part)));
      at = elim v.at [
        | inl p ↦ inl (p.0, read ∙ p.1)
        | inr q ↦ elim q [
          | inl p ↦ inr (inl (omega (arith, p)))
          | inr p ↦ absurd (cc (sym open_input ∙ p.2))
        ]
      ];
      out_placed = All-map _ _ s.segments_out moved v.out_placed;
      outstanding_placed = All-map _ _ s.outstanding_segments moved v.outstanding_placed;
    }

-- The end of the stream.
pub end_input-Sends :
    (f : ℕ → ℕ) (isn total : ℕ) (s : TcpSender)
    → Sends f isn total s
    → Sends f isn total (record s { stream = end_input s.stream })
end_input-Sends f isn total s v =
    let moved =
      Placed-later f isn total total s.stream.input_ended true (omega arith) (λ e. (refl, refl)) in
    record {
      valid =
          stream-IsValid s (end_input s.stream) v.valid
            (Validity.end_input-IsValid v.valid.stream_valid);
      same_isn = v.same_isn;
      no_error = v.no_error;
      counted = v.counted;
      part = v.part;
      at = elim v.at [
        | inl p ↦ inl p
        | inr q ↦ elim q [ inl p ↦ inr (inl p) | inr p ↦ inr (inr (p.0, p.1, refl)) ]
      ];
      out_placed = All-map _ _ s.segments_out moved v.out_placed;
      outstanding_placed = All-map _ _ s.outstanding_segments moved v.outstanding_placed;
    }
