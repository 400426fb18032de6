-- ===== src/Sender/Acking.antt =====
-- `TCPSender::ack_received` and `TCPSender::tick`.
use cs144_labs.Prelude.{
  ℕ, ◌+◌, ◌^◌, ◌≤◌, ◌<◌, ◌≡◌, inl, inr, refl, ap, ◌∙◌, false, not, ◌||◌, List, [], ◌∷◌, ◌++◌, arith,
  ltb, leb, ◌==◌, ltb→lt, ltb→le, Bool-cases, add64, sub64,
}
use cs144_labs.Wrapping.{unwrap}
use cs144_labs.Segment.{TcpSegment, length_in_sequence_space}
use cs144_labs.Config.{max_payload_size}
use cs144_labs.Sender.Clock.{Timer, stop_with}
use cs144_labs.Sender.{TcpSender, drop_acked, accept_ack, ack_received, is_empty}
use cs144_labs.Wrapping.Closest.{unwrap-wrap}
use cs144_labs.Sender.Validity.{IsValid, Chain, Chain-le}

-- No segment is fully acknowledged: each ends after `abs_ack_no`.
abbrev pub AllUnacked : ℕ → ℕ → List TcpSegment → Type 0
AllUnacked abs_ack_no a [] = Unit {0}
AllUnacked abs_ack_no a (seg ∷ segs) =
    (abs_ack_no < a + length_in_sequence_space seg)
    × AllUnacked abs_ack_no (a + length_in_sequence_space seg) segs

AllUnacked-later :
    (abs_ack_no isn a : ℕ) (segs : List TcpSegment) (b : ℕ)
    → Chain isn a segs b
    → abs_ack_no < a
    → AllUnacked abs_ack_no a segs
AllUnacked-later abs_ack_no isn a [] b c h = tt
AllUnacked-later abs_ack_no isn a (x ∷ segs) b c h = (
  omega arith,
  AllUnacked-later abs_ack_no isn (a + length_in_sequence_space x) segs b c.3 (omega arith),
)

-- What the loop over the outstanding segments leaves.
record Dropped (isn abs_ack_no next a : ℕ) (segs : List TcpSegment)
    (out : List TcpSegment × ℕ × Timer) : Type 0 where
  oldest : ℕ
  chain : Chain isn oldest out.0 next
  in_flight : oldest + out.1 ≡ next
  acked : oldest ≤ abs_ack_no
  partly : abs_ack_no < oldest + max_payload_size + 2
  running : out.2.started ≡ not (is_empty out.0)
  unacked : AllUnacked abs_ack_no oldest out.0
  gone : List TcpSegment
  split : segs ≡ gone ++ out.0
  gone_chain : Chain isn a gone oldest

drop_acked-Dropped :
    (isn last abs_ack_no next : ℕ) (segs : List TcpSegment) (a in_flight : ℕ) (timer : Timer)
    → isn < 2 ^ 32
    → last < 2 ^ 63
    → next ≤ last + 2 ^ 16
    → last < a + 2 ^ 16
    → abs_ack_no ≤ next
    → Chain isn a segs next
    → a + in_flight ≡ next
    → a ≤ abs_ack_no
    → timer.started ≡ false
    → Dropped isn abs_ack_no next a segs (drop_acked isn last abs_ack_no segs in_flight timer)
unfolding drop_acked
drop_acked-Dropped isn last abs_ack_no next [] a in_flight timer h1 h2 h3 h4 h5 c f g t = record {
  oldest = a;
  chain = c;
  in_flight = f;
  acked = g;
  partly = omega arith;
  running = t;
  unacked = tt;
  gone = [];
  split = refl;
  gone_chain = refl;
}
drop_acked-Dropped isn last abs_ack_no next (x ∷ segs) a in_flight timer h1 h2 h3 h4 h5 c f g t =
    let n = length_in_sequence_space x in
    let le = Chain-le isn (a + n) segs next c.3 in
    let at : unwrap x.header.seqno isn last ≡ a =
      rw c.0 (unwrap-wrap a isn last h1 (omega arith) (omega arith) (omega arith)) in
    let sum : add64 a n ≡ a + n = omega arith in
    elim (Bool-cases (ltb abs_ack_no (a + n))) [
      | inl e ↦
          rw (at, sum, e)
            (record {
              oldest = a;
              chain = c;
              in_flight = f;
              acked = g;
              partly = ground arith;
              running = refl;
              unacked = (
                ltb→lt abs_ack_no (a + n) e,
                AllUnacked-later abs_ack_no isn (a + n) segs next c.3 (ltb→lt abs_ack_no (a + n) e),
              );
              gone = [];
              split = refl;
              gone_chain = refl;
            })
      | inr e ↦
          let d =
            drop_acked-Dropped isn last abs_ack_no next segs (a + n) (sub64 in_flight n) timer h1 h2
              h3 (omega arith) h5 c.3 (omega arith) (ltb→le abs_ack_no (a + n) e) t in
          rw (at, sum, e)
            (record {
              oldest = d.oldest;
              chain = d.chain;
              in_flight = d.in_flight;
              acked = d.acked;
              partly = d.partly;
              running = d.running;
              unacked = d.unacked;
              gone = x ∷ d.gone;
              split = ap (◌∷◌ x) d.split;
              gone_chain = (c.0, c.1, c.2, d.gone_chain);
            })
    ]

timeout-drop_acked :
    (isn last abs_ack_no : ℕ) (segs : List TcpSegment) (in_flight : ℕ) (timer : Timer)
    → (drop_acked isn last abs_ack_no segs in_flight timer).2.timeout_ms ≡ timer.timeout_ms
unfolding drop_acked
timeout-drop_acked isn last abs_ack_no [] in_flight timer = refl
timeout-drop_acked isn last abs_ack_no (x ∷ segs) in_flight timer = ground (
  arith,
  timeout-drop_acked isn last abs_ack_no segs (sub64 in_flight (length_in_sequence_space x)) timer,
)

elapsed-drop_acked :
    (isn last abs_ack_no : ℕ) (segs : List TcpSegment) (in_flight : ℕ) (timer : Timer)
    → timer.elapsed_ms ≡ 0
    → (drop_acked isn last abs_ack_no segs in_flight timer).2.elapsed_ms ≡ 0
unfolding drop_acked
elapsed-drop_acked isn last abs_ack_no [] in_flight timer e = e
elapsed-drop_acked isn last abs_ack_no (x ∷ segs) in_flight timer e = ground (
  arith,
  elapsed-drop_acked isn last abs_ack_no segs (sub64 in_flight (length_in_sequence_space x)) timer
      e,
)

nothing_left :
    (isn abs_ack_no a next : ℕ) (segs : List TcpSegment)
    → Chain isn a segs next
    → AllUnacked abs_ack_no a segs
    → abs_ack_no ≡ next
    → segs ≡ []
nothing_left isn abs_ack_no a next [] c u e = refl
nothing_left isn abs_ack_no a next (x ∷ segs) c u e =
    absurd (omega (arith, Chain-le isn (a + length_in_sequence_space x) segs next c.3, u.0))

-- What an acknowledgment of new data has done. `gone` are the segments that it covers whole: they
-- end at the new oldest number, which is acknowledged.
pub record Accepted (s : TcpSender) (abs_ack_no window_size : ℕ) (s' : TcpSender) : Type 0 where
  pub valid : IsValid s'
  pub acked : s'.last_ack_no ≡ abs_ack_no
  pub window : s'.window_size ≡ window_size
  pub unacked : AllUnacked abs_ack_no valid.oldest s'.outstanding_segments
  pub gone : List TcpSegment
  pub split : s.outstanding_segments ≡ gone ++ s'.outstanding_segments
  pub gone_acked : valid.oldest ≤ abs_ack_no
  pub gone_chain : (o : ℕ) × Chain s.isn o gone valid.oldest
  pub count_reset : s'.retransmission_count ≡ 0
  pub timeout_reset : s'.timer.timeout_ms ≡ s.init_retransmission_timeout
  pub elapsed_reset : s'.timer.elapsed_ms ≡ 0
  pub running : s'.timer.started ≡ not (is_empty s'.outstanding_segments)
  pub all_acked :
      abs_ack_no ≡ s.next_seq_no
      → (s'.outstanding_segments ≡ []) × (s'.bytes_in_flight ≡ 0) × (s'.timer.started ≡ false)
  pub same_next : s'.next_seq_no ≡ s.next_seq_no
  pub same_stream : s'.stream ≡ s.stream
  pub same_out : s'.segments_out ≡ s.segments_out

accept_ack-Accepted :
    (s : TcpSender) (abs_ack_no window_size : ℕ)
    → IsValid s
    → s.last_ack_no + 2 ^ 16 < 2 ^ 63
    → s.last_ack_no < abs_ack_no
    → abs_ack_no ≤ s.next_seq_no
    → window_size < 2 ^ 16
    → Accepted s abs_ack_no window_size (accept_ack s abs_ack_no window_size)
unfolding accept_ack
accept_ack-Accepted s abs_ack_no window_size v w h k l =
    let timer = stop_with s.timer s.init_retransmission_timeout in
    let d =
      drop_acked-Dropped s.isn s.last_ack_no abs_ack_no s.next_seq_no s.outstanding_segments
        v.oldest s.bytes_in_flight timer v.isn_word (omega arith) v.ahead (omega arith) k v.chain
        v.in_flight (omega arith) refl in
    record {
      valid = record {
        oldest = d.oldest;
        isn_word = v.isn_word;
        stream_valid = v.stream_valid;
        chain = d.chain;
        in_flight = d.in_flight;
        oldest_acked = d.acked;
        acked_sent = k;
        partly = d.partly;
        window_word = l;
        ahead = omega arith;
        next_word = v.next_word;
        running = d.running;
      };
      acked = refl;
      window = refl;
      unacked = d.unacked;
      gone = d.gone;
      split = d.split;
      gone_acked = d.acked;
      gone_chain = (v.oldest, d.gone_chain);
      count_reset = refl;
      timeout_reset =
          timeout-drop_acked s.isn s.last_ack_no abs_ack_no s.outstanding_segments s.bytes_in_flight
            timer;
      elapsed_reset =
          elapsed-drop_acked s.isn s.last_ack_no abs_ack_no s.outstanding_segments s.bytes_in_flight
            timer refl;
      running = d.running;
      all_acked = λ e.
          let none_left =
            nothing_left s.isn abs_ack_no d.oldest s.next_seq_no _ d.chain d.unacked e in
          let c : Chain s.isn d.oldest [] s.next_seq_no = rw none_left at d.chain in
          (
            none_left,
            omega (arith, d.in_flight, c),
            d.running ∙ ap (λ t. not (is_empty t)) none_left,
          );
      same_next = refl;
      same_stream = refl;
      same_out = refl;
    }

-- The four cases of `ack_received`, by the absolute number that the acknowledgment stands for. One
-- of new data is accepted: the segments that it covers leave the outstanding ones, all others stay,
-- the timeout, the time on the timer and the count of retransmissions are reset, and the timer runs
-- just if a segment is still outstanding. A repeated one updates the window only. Older ones, and those of data that was never sent,
-- change nothing.
pub ack_received_cases :
    (s : TcpSender) (ackno window_size : ℕ)
    → IsValid s
    → s.last_ack_no + 2 ^ 16 < 2 ^ 63
    → window_size < 2 ^ 16
    → let abs_ack_no = unwrap ackno s.isn s.last_ack_no in
      let s' = ack_received s ackno window_size in
      (s.last_ack_no < abs_ack_no
        → abs_ack_no ≤ s.next_seq_no
        → Accepted s abs_ack_no window_size s')
      × (abs_ack_no ≡ s.last_ack_no → s' ≡ record s { window_size = window_size })
      × (abs_ack_no < s.last_ack_no → s' ≡ s)
      × (s.next_seq_no < abs_ack_no → s' ≡ s)
unfolding ack_received
ack_received_cases s ackno window_size v w l =
    let abs_ack_no = unwrap ackno s.isn s.last_ack_no in
    (
      λ h k. rw (old_false abs_ack_no h k) (accept_ack-Accepted s abs_ack_no window_size v w h k l),
      λ e. ground arith,
      λ h. ground arith,
      λ h. ground (arith, v.acked_sent),
    )
  where
    old_false :
        (n : ℕ)
        → s.last_ack_no < n
        → n ≤ s.next_seq_no
        → (leb n s.last_ack_no || ltb s.next_seq_no n) ≡ false
    old_false n h k = ground arith

window-IsValid :
    (s : TcpSender) (window_size : ℕ)
    → IsValid s
    → window_size < 2 ^ 16
    → IsValid (record s { window_size = window_size })
window-IsValid s window_size v l = record {
  oldest = v.oldest;
  isn_word = v.isn_word;
  stream_valid = v.stream_valid;
  chain = v.chain;
  in_flight = v.in_flight;
  oldest_acked = v.oldest_acked;
  acked_sent = v.acked_sent;
  partly = v.partly;
  window_word = l;
  ahead = v.ahead;
  next_word = v.next_word;
  running = v.running;
}

-- Every acknowledgment, old, new or impossible, keeps the invariant.
pub ack_received-IsValid :
    (s : TcpSender) (ackno window_size : ℕ)
    → IsValid s
    → s.last_ack_no + 2 ^ 16 < 2 ^ 63
    → window_size < 2 ^ 16
    → IsValid (ack_received s ackno window_size)
unfolding ack_received
ack_received-IsValid s ackno window_size v w l =
    let abs_ack_no = unwrap ackno s.isn s.last_ack_no in
    elim (Bool-cases (leb abs_ack_no s.last_ack_no || ltb s.next_seq_no abs_ack_no)) [
      | inl e ↦ rw e (elim (Bool-cases (abs_ack_no == s.last_ack_no)) [
        | inl f ↦ rw f (window-IsValid s window_size v l)
        | inr f ↦ rw f v
      ])
      | inr e ↦
          rw e
            (accept_ack-Accepted s abs_ack_no window_size v w (ground arith) (ground arith) l).valid
    ]
