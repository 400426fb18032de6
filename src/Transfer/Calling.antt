-- ===== src/Transfer/Calling.antt =====
-- What the sender of a transfer hears: acknowledgments and the time.
use cs144_labs.Prelude.{
  ℕ, ◌^◌, ◌<◌, ◌≡◌, inl, inr, refl, sym, ap, ◌∙◌, some, List, [], ◌∷◌, arith, ltb, leb, ◌==◌, ◌||◌,
  Bool-cases, add64, sub64,
}
use mathlib.Core.Path.{subst}
use cs144_labs.Prelude.{some_inj}
use cs144_labs.Wrapping.{unwrap}
use cs144_labs.Segment.{TcpSegment, length_in_sequence_space}
use cs144_labs.Sender.{TcpSender, drop_acked, accept_ack, ack_received, tick}
use cs144_labs.Sender.Clock.{Timer}
use cs144_labs.Sender.Validity.{IsValid}
use cs144_labs.Transfer.Marking.{All, All-append, Placed, Sends}
use cs144_labs.Transfer.Rounds.{next_bound}
use cs144_labs.Sender.Acking.{ack_received-IsValid}
use cs144_labs.Sender.Ticking.{later, tick_cases, timer-IsValid}

All-drop_acked :
    (P : TcpSegment → Type 0) (isn last abs_ack_no : ℕ) (segs : List TcpSegment) (in_flight : ℕ)
    (timer : Timer)
    → All P segs
    → All P (drop_acked isn last abs_ack_no segs in_flight timer).0
unfolding drop_acked
All-drop_acked P isn last abs_ack_no [] in_flight timer a = tt
All-drop_acked P isn last abs_ack_no (seg ∷ segs) in_flight timer a =
    let n = length_in_sequence_space seg in
    elim (Bool-cases (ltb abs_ack_no (add64 (unwrap seg.header.seqno isn last) n))) [
      | inl e ↦ rw e a
      | inr e ↦ rw e (All-drop_acked P isn last abs_ack_no segs (sub64 in_flight n) timer a.1)
    ]

-- What an acknowledgment leaves as it was.
record Acked (P : TcpSegment → Type 0) (s s' : TcpSender) : Type 0 where
  same_stream : s'.stream ≡ s.stream
  same_isn : s'.isn ≡ s.isn
  same_next : s'.next_seq_no ≡ s.next_seq_no
  same_out : s'.segments_out ≡ s.segments_out
  fewer : All P s.outstanding_segments → All P s'.outstanding_segments

ack_received-Acked :
    (P : TcpSegment → Type 0) (s : TcpSender) (ackno window : ℕ)
    → Acked P s (ack_received s ackno window)
unfolding ack_received accept_ack
ack_received-Acked P s ackno window =
    let abs_ack_no = unwrap ackno s.isn s.last_ack_no in
    let all_same : Acked P s s = record {
      same_stream = refl;
      same_isn = refl;
      same_next = refl;
      same_out = refl;
      fewer = λ a. a;
    } in
    elim (Bool-cases (leb abs_ack_no s.last_ack_no || ltb s.next_seq_no abs_ack_no)) [
      | inl e ↦ rw e (elim (Bool-cases (abs_ack_no == s.last_ack_no)) [
        | inl g ↦ rw g (record {
          same_stream = refl;
          same_isn = refl;
          same_next = refl;
          same_out = refl;
          fewer = λ a. a;
        })
        | inr g ↦ rw g all_same
      ])
      | inr e ↦ rw e (record {
        same_stream = refl;
        same_isn = refl;
        same_next = refl;
        same_out = refl;
        fewer = All-drop_acked P s.isn s.last_ack_no abs_ack_no s.outstanding_segments _ _;
      })
    ]

-- A sender with the stream and the numbers of one whose segments are placed.
same-Sends :
    (f : ℕ → ℕ) (isn total : ℕ) (s s' : TcpSender)
    → Sends f isn total s
    → IsValid s'
    → s'.stream ≡ s.stream
    → s'.isn ≡ s.isn
    → s'.next_seq_no ≡ s.next_seq_no
    → All (Placed f isn total s.stream.input_ended) s'.segments_out
    → All (Placed f isn total s.stream.input_ended) s'.outstanding_segments
    → Sends f isn total s'
same-Sends f isn total s s' v valid stream same next out outstanding = record {
  valid = valid;
  same_isn = same ∙ v.same_isn;
  no_error = rw stream v.no_error;
  counted = rw stream v.counted;
  part = rw stream v.part;
  at = rw (stream, next) v.at;
  out_placed = rw stream out;
  outstanding_placed = rw stream outstanding;
}

-- An acknowledgment, whatever its numbers.
pub ack_received-Sends :
    (f : ℕ → ℕ) (isn total : ℕ) (s : TcpSender) (ackno window : ℕ)
    → Sends f isn total s
    → total < 2 ^ 31
    → window < 2 ^ 16
    → Sends f isn total (ack_received s ackno window)
      × ((ack_received s ackno window).stream.input_ended ≡ s.stream.input_ended)
ack_received-Sends f isn total s ackno window v small l =
    let a = ack_received-Acked (Placed f isn total s.stream.input_ended) s ackno window in
    (
      same-Sends f isn total s (ack_received s ackno window) v
          (ack_received-IsValid s ackno window v.valid
            (omega (arith, next_bound f isn total s v, v.valid.acked_sent)) l)
          a.same_stream a.same_isn a.same_next (rw a.same_out v.out_placed)
          (a.fewer v.outstanding_placed),
      ap (λ b. b.input_ended) a.same_stream,
    )

-- The time.
pub tick-Sends :
    (f : ℕ → ℕ) (isn total : ℕ) (s s' : TcpSender) (ms : ℕ)
    → Sends f isn total s
    → tick s ms ≡ some s'
    → Sends f isn total s' × (s'.stream.input_ended ≡ s.stream.input_ended)
tick-Sends f isn total s s' ms v run =
    let (t, e, valid, cases) = tick_cases s ms v.valid in
    let done : Sends f isn total t × (t.stream.input_ended ≡ s.stream.input_ended) = elim cases [
      | inl c ↦
          let r = c.1 in
          let (seg, rest, first, again) = r.again in
          let outstanding : All (Placed f isn total s.stream.input_ended) (seg ∷ rest) =
            rw first at v.outstanding_placed in
          (
            same-Sends f isn total s t v valid r.same_stream r.same_isn r.same_next
                (rw again (All-append _ s.segments_out (seg ∷ []) v.out_placed (outstanding.0, tt)))
                (rw r.same_outstanding v.outstanding_placed),
            ap (λ b. b.input_ended) r.same_stream,
          )
      | inr c ↦
          let later_Sends : Sends f isn total (later s ms) =
            same-Sends f isn total s (later s ms) v (subst IsValid c.1 valid) refl refl refl
              v.out_placed v.outstanding_placed in
          (subst (Sends f isn total) (sym c.1) later_Sends, ap (λ u. u.stream.input_ended) c.1)
    ] in
    subst (λ u. Sends f isn total u × (u.stream.input_ended ≡ s.stream.input_ended))
      (some_inj (sym e ∙ run)) done

-- The queue of segments goes out.
pub sent-Sends :
    (f : ℕ → ℕ) (isn total : ℕ) (s : TcpSender)
    → Sends f isn total s
    → Sends f isn total (record s { segments_out = [] })
sent-Sends f isn total s v =
    same-Sends f isn total s (record s { segments_out = [] }) v
      (timer-IsValid s s.timer s.retransmission_count [] v.valid refl) refl refl refl tt
      v.outstanding_placed
