-- ===== src/Sender/Ticking.antt =====
-- `TCPSender::tick` and `TCPSender::send_empty_segment`.
use cs144_labs.Prelude.{
  ℕ, ◌*◌, ◌%◌, ◌^◌, ◌≡◌, ◌⊎◌, inl, inr, refl, sym, ap, ◌∙◌, true, false, not, some, List, [], ◌∷◌,
  ◌++◌, arith, ◌==◌, if◌then◌else◌, Bool-cases, add64,
}
use cs144_labs.Segment.{TcpSegment}
use cs144_labs.Sender.Clock.{Timer, advance, expired}
use cs144_labs.Sender.{TcpSender, retransmit, tick, send_empty_segment, is_empty, empty_segment}
use cs144_labs.Sender.Validity.{IsValid}

-- A retransmission: the oldest outstanding segment is sent again and the timer runs anew. If the peer
-- has announced room, the timeout doubles and the retransmission counts; if not, it is a probe.
pub record Retransmitted (s s' : TcpSender) : Type 0 where
  pub valid : IsValid s'
  pub again :
      (seg : TcpSegment) × (rest : List TcpSegment) × (s.outstanding_segments ≡ seg ∷ rest)
      × (s'.segments_out ≡ s.segments_out ++ seg ∷ [])
  pub timer_new : s'.timer ≡ record {
    timeout_ms =
        if s.window_size == 0 then s.timer.timeout_ms else (s.timer.timeout_ms * 2) % 2 ^ 64;
    elapsed_ms = 0;
    started = true;
  }
  pub counted :
      s'.retransmission_count
      ≡ (if s.window_size == 0 then s.retransmission_count else add64 s.retransmission_count 1)
  pub same_outstanding : s'.outstanding_segments ≡ s.outstanding_segments
  pub same_next : s'.next_seq_no ≡ s.next_seq_no
  pub same_stream : s'.stream ≡ s.stream
  pub same_isn : s'.isn ≡ s.isn

pub timer-IsValid :
    (s : TcpSender) (timer : Timer) (count : ℕ) (out : List TcpSegment)
    → IsValid s
    → timer.started ≡ s.timer.started
    → IsValid (record s { timer = timer; retransmission_count = count; segments_out = out })
timer-IsValid s timer count out v e = record {
  oldest = v.oldest;
  isn_word = v.isn_word;
  stream_valid = v.stream_valid;
  chain = v.chain;
  in_flight = v.in_flight;
  oldest_acked = v.oldest_acked;
  acked_sent = v.acked_sent;
  partly = v.partly;
  window_word = v.window_word;
  ahead = v.ahead;
  next_word = v.next_word;
  running = e ∙ v.running;
}

new_timeout : TcpSender → Timer
new_timeout s = record {
  timeout_ms = if s.window_size == 0 then s.timer.timeout_ms else (s.timer.timeout_ms * 2) % 2 ^ 64;
  elapsed_ms = 0;
  started = true;
}

new_count : TcpSender → ℕ
new_count s = if s.window_size == 0 then s.retransmission_count else add64 s.retransmission_count 1

retransmit_lem :
    (s : TcpSender) (seg : TcpSegment) (rest : List TcpSegment)
    → retransmit s (seg ∷ rest)
      ≡ some (record s {
        timer = new_timeout s;
        retransmission_count = new_count s;
        segments_out = s.segments_out ++ seg ∷ [];
      })
unfolding retransmit new_timeout new_count
retransmit_lem s seg rest = ground arith

retransmit-Retransmitted :
    (s : TcpSender) (segs : List TcpSegment)
    → s.outstanding_segments ≡ segs
    → IsValid s
    → s.timer.started ≡ true
    → (s' : TcpSender) × (retransmit s segs ≡ some s') × Retransmitted s s'
retransmit-Retransmitted s [] e v t = absurd (cc (sym t ∙ v.running ∙ ap (λ l. not (is_empty l)) e))
retransmit-Retransmitted s (seg ∷ rest) e v t = (
  record s {
    timer = new_timeout s;
    retransmission_count = new_count s;
    segments_out = s.segments_out ++ seg ∷ [];
  },
  retransmit_lem s seg rest,
  record {
    valid =
        timer-IsValid s (new_timeout s) (new_count s) (s.segments_out ++ seg ∷ []) v
          (unfold new_timeout in sym t);
    again = (seg, rest, e, refl);
    timer_new = unfold new_timeout in refl;
    counted = unfold new_count in refl;
    same_outstanding = refl;
    same_next = refl;
    same_stream = refl;
    same_isn = refl;
  },
)

-- The sender with its timer advanced.
abbrev pub later : TcpSender → ℕ → TcpSender
later s ms = record s { timer = advance s.timer ms }

started-advance : (t : Timer) (ms : ℕ) → (advance t ms).started ≡ t.started
started-advance t ms = ground arith

-- `tick` never fails its assertion: an expired timer has an outstanding segment. If the timer has
-- expired, that segment is retransmitted; if not, only the timer advances. The invariant stays.
pub tick_cases :
    (s : TcpSender) (ms : ℕ)
    → IsValid s
    → (s' : TcpSender) × (tick s ms ≡ some s')
      × IsValid s'
      × (((expired (later s ms).timer ≡ true) × Retransmitted (later s ms) s')
          ⊎ ((expired (later s ms).timer ≡ false) × (s' ≡ later s ms)))
unfolding tick
tick_cases s ms v =
    let v' =
      timer-IsValid s (advance s.timer ms) s.retransmission_count s.segments_out v
        (started-advance s.timer ms) in
    elim (Bool-cases (expired (later s ms).timer)) [
      | inl e ↦
          let (s', run, r) =
            retransmit-Retransmitted (later s ms) s.outstanding_segments refl v'
              (expired_started (later s ms).timer e) in
          (s', rw e run, r.valid, inl (e, r))
      | inr e ↦ (later s ms, rw e refl, v', inr (e, refl))
    ]
  where
    expired_started : (t : Timer) → expired t ≡ true → t.started ≡ true
    expired_started t h = ground arith

-- `send_empty_segment` takes no sequence number and keeps the invariant.
pub send_empty_segment-IsValid :
    (s : TcpSender)
    → IsValid s
    → IsValid (send_empty_segment s) × ((send_empty_segment s).next_seq_no ≡ s.next_seq_no)
unfolding send_empty_segment
send_empty_segment-IsValid s v = elim (Bool-cases (is_empty s.segments_out)) [
  | inl e ↦
      rw e (timer-IsValid s s.timer s.retransmission_count (empty_segment s ∷ []) v refl, refl)
  | inr e ↦ rw e (v, refl)
]
