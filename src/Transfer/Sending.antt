-- ===== src/Transfer/Sending.antt =====
-- `TCPSender::fill_window` in a transfer: all that it sends is marked with its place in the stream.
use cs144_labs.Prelude.{
  ℕ, zero, suc, ◌^◌, ◌<◌, ◌≡◌, inl, inr, refl, sym, ap, ◌∙◌, Bool, false, some, [], ◌∷◌, arith,
  Bool-cases,
}
use mathlib.Core.Path.{subst}
use cs144_labs.Prelude.{some_inj}
use cs144_labs.ByteStream
use cs144_labs.ByteStream.{ByteStream, write, end_input}
use cs144_labs.Wrapping.{wrap}
use cs144_labs.Sender.{
  TcpSender, state, is_closed, send_segment, syn_segment, send_next, nothing_to_send, fill_loop,
  fill_window,
}
use cs144_labs.Sender.Filling.{send_syn-Filled, is_closed-state}
use cs144_labs.Transfer.Marking.{All-append, Placed, IsPast, Sends}
use cs144_labs.Transfer.Rounds.{nothing_after_fin, send_next-IsPast, send_next-Sends}

fill_loop-Sends :
    (f : ℕ → ℕ) (isn total : ℕ)
    → total < 2 ^ 31
    → (fuel : ℕ) (s s' : TcpSender) → Sends f isn total s
    → IsPast s
    → fill_loop fuel s ≡ some s'
    → Sends f isn total s' × (s'.stream.input_ended ≡ s.stream.input_ended)
unfolding fill_loop
fill_loop-Sends f isn total small zero s s' v past run = absurd (cc run)
fill_loop-Sends f isn total small (suc fuel) s s' v past run =
    elim (Bool-cases (nothing_to_send s)) [
      | inl e ↦
          let same : s ≡ s' = some_inj (rw e at run) in
          (subst (Sends f isn total) same v, ap (λ t. t.stream.input_ended) (sym same))
      | inr e ↦ elim past [
        | inl p ↦
            let v' = send_next-Sends f isn total s v small e p in
            let past' = send_next-IsPast f isn total s v small p in
            let (done, same) =
              fill_loop-Sends f isn total small fuel (send_next s) s' v' past' (rw e at run) in
            (done, same ∙ unfold send_next send_segment ByteStream.pop_output in refl)
        | inr p ↦ absurd (cc (sym e ∙ nothing_after_fin s v.valid v.no_error p.0 p.1 p.2))
      ]
    ]

syn_segment-Placed :
    (f : ℕ → ℕ) (total : ℕ) (s : TcpSender) (ended : Bool)
    → Placed f s.isn total ended (syn_segment s)
unfolding wrap
syn_segment-Placed f total s ended = record {
  index = 0;
  number = refl;
  part = λ k h. absurd (omega arith);
  inside = omega arith;
  last = λ e. cc;
  opens = λ e. (refl, refl);
}

send_syn-Sends :
    (f : ℕ → ℕ) (isn total : ℕ) (s : TcpSender)
    → Sends f isn total s
    → s.next_seq_no ≡ 0
    → Sends f isn total (send_segment s (syn_segment s))
send_syn-Sends f isn total s v z =
    let (filled, one) = send_syn-Filled s v.valid z in
    let placed =
      subst (λ i. Placed f i total s.stream.input_ended (syn_segment s)) v.same_isn
        (syn_segment-Placed f total s s.stream.input_ended) in
    let nothing_read : s.stream.bytes_read ≡ 0 = elim v.at [
      | inl p ↦ p.1
      | inr q ↦ elim q [ inl p ↦ absurd (omega (arith, p)) | inr p ↦ absurd (omega (arith, p.0)) ]
    ] in
    record {
      valid = filled.valid;
      same_isn = unfold send_segment in v.same_isn;
      no_error = unfold send_segment in v.no_error;
      counted = unfold send_segment in v.counted;
      part = unfold send_segment in v.part;
      at = inr (inl (one ∙ unfold send_segment in omega (arith, nothing_read)));
      out_placed =
          unfold send_segment in
          All-append _ s.segments_out (syn_segment s ∷ []) v.out_placed (placed, tt);
      outstanding_placed =
          unfold send_segment in
          All-append _ s.outstanding_segments (syn_segment s ∷ []) v.outstanding_placed
            (placed, tt);
    }

not_closed :
    (s : TcpSender) → s.stream.error ≡ false → is_closed (state s) ≡ false → 0 < s.next_seq_no
unfolding state
not_closed s e h = ground arith

-- Filling the window marks all that it sends.
pub fill_window-Sends :
    (f : ℕ → ℕ) (isn total : ℕ) (s s' : TcpSender)
    → total < 2 ^ 31
    → Sends f isn total s
    → fill_window s ≡ some s'
    → Sends f isn total s' × (s'.stream.input_ended ≡ s.stream.input_ended)
unfolding fill_window
fill_window-Sends f isn total s s' small v run = elim (Bool-cases (is_closed (state s))) [
  | inl e ↦
      let same : send_segment s (syn_segment s) ≡ s' = some_inj (rw e at run) in
      (
        subst (Sends f isn total) same (send_syn-Sends f isn total s v (is_closed-state s e)),
        ap (λ t. t.stream.input_ended) (sym same) ∙ unfold send_segment in refl,
      )
  | inr e ↦
      let pos = not_closed s v.no_error e in
      elim v.at [
        | inl p ↦ absurd (omega (arith, p.0))
        | inr past ↦ fill_loop-Sends f isn total small _ s s' v past (rw e at run)
      ]
]
