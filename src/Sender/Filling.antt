-- ===== src/Sender/Filling.antt =====
-- `TCPSender::fill_window`: what it sends, that it stays in the window, and that its loop ends.
use cs144_labs.Prelude.{
  ℕ, zero, suc, ◌+◌, ◌^◌, ◌≤◌, ◌<◌, max, ◌≡◌, ◌⊎◌, inl, inr, refl, sym, ap, ◌∙◌, true, false, some,
  List, [], ◌∷◌, ◌++◌, arith, Bool-cases, length, length-take, add64,
}
use native.Mathlib.Decide.{dec_lt}
use cs144_labs.ByteStream
use cs144_labs.ByteStream.{ByteStream}
use cs144_labs.ByteStream.Validity
use cs144_labs.ByteStream.Refinement.{contents, length-contents}
use cs144_labs.ByteStream.Queue.{peek_refines}
use cs144_labs.Wrapping.{wrap}
use cs144_labs.Segment.{TcpSegment, length_in_sequence_space}
use cs144_labs.Config.{max_payload_size}
use cs144_labs.Sender.Clock.{stop}
use cs144_labs.Sender.{
  TcpSender, State, error, closed, syn_sent, syn_acked, fin_sent, fin_acked, state, is_closed,
  send_segment, free_window_size, syn_segment, need_send_fin, send_size, next_segment, send_next,
  nothing_to_send, fill_loop, fill_window,
}
use mathlib.Core.List.{append_assoc, append-nil}
use mathlib.Core.Path.{subst₂}
use cs144_labs.ByteStream.History.{removed-append}
use cs144_labs.Sender.Validity.{IsValid, Chain, send_segment-IsValid}

pub length-peek :
    {s : ByteStream} (n : ℕ)
    → Validity.IsValid s
    → n ≤ s.used_size
    → length (ByteStream.peek_output s n) ≡ n
length-peek {s} n v h =
    ap length (peek_refines n v) ∙ omega (arith, length-take n (contents s), length-contents s)

-- The size of what one round reads.
pub send_size_lem :
    (s : TcpSender)
    → (send_size s ≤ s.stream.used_size)
      × (send_size s ≤ free_window_size s)
      × (send_size s ≤ max_payload_size)
      × (0 < s.stream.used_size → 0 < free_window_size s → 0 < send_size s)
unfolding send_size
send_size_lem s = (omega arith, omega arith, omega arith, λ h k. omega arith)

eof-pop :
    (s : ByteStream) (n : ℕ)
    → s.used_size < 2 ^ 64
    → s.used_size ≤ n
    → s.input_ended ≡ true
    → ByteStream.eof (ByteStream.pop_output s n) ≡ true
unfolding ByteStream.pop_output
eof-pop s n h k e = ground arith

pub nothing_to_send-false :
    (s : TcpSender)
    → nothing_to_send s ≡ false
    → (0 < free_window_size s) × ((0 < s.stream.used_size) ⊎ (need_send_fin s ≡ true))
unfolding nothing_to_send
nothing_to_send-false s h = elim (dec_lt 0 s.stream.used_size) [
  | yes p ↦ (ground arith, inl p)
  | no p ↦ (ground arith, inr (ground arith))
]

need_send_fin_ended : (s : TcpSender) → need_send_fin s ≡ true → s.stream.input_ended ≡ true
unfolding need_send_fin
need_send_fin_ended s h = ground arith

-- A segment of the loop takes at least one number, and no more than the window has free.
length-next_segment :
    (s : TcpSender)
    → IsValid s
    → nothing_to_send s ≡ false
    → (0 < length_in_sequence_space (next_segment s))
      × (length_in_sequence_space (next_segment s) ≤ free_window_size s)
      × (length_in_sequence_space (next_segment s) ≤ max_payload_size + 1)
unfolding next_segment length_in_sequence_space
length-next_segment s v h =
    let (free, reason) = nothing_to_send-false s h in
    let (a, b, c, d) = send_size_lem s in
    let size = length-peek (send_size s) v.stream_valid a in
    elim reason [
      | inl p ↦ ground (arith, size, d p free)
      | inr f ↦ elim (dec_lt 0 s.stream.used_size) [
        | yes p ↦ ground (arith, size, d p free)
        | no p ↦ ground (
          arith,
          size,
          f,
          eof-pop s.stream (send_size s) (omega arith) (omega arith) (need_send_fin_ended s f),
        )
      ]
    ]

-- What is free lies between what is sent and the end of the window, of size one at least.
free_window_size_lem :
    (s : TcpSender)
    → IsValid s
    → 0 < free_window_size s
    → s.next_seq_no + free_window_size s ≤ s.last_ack_no + max s.window_size 1
unfolding free_window_size
free_window_size_lem s v h = ground arith

pub send_next-fields :
    (s : TcpSender)
    → ((send_next s).next_seq_no ≡ add64 s.next_seq_no (length_in_sequence_space (next_segment s)))
      × ((send_next s).last_ack_no ≡ s.last_ack_no)
      × ((send_next s).window_size ≡ s.window_size)
      × ((send_next s).segments_out ≡ s.segments_out ++ next_segment s ∷ [])
      × ((send_next s).stream ≡ ByteStream.pop_output s.stream (send_size s))
      × ((send_next s).isn ≡ s.isn)
      × ((send_next s).outstanding_segments ≡ s.outstanding_segments ++ next_segment s ∷ [])
unfolding send_next send_segment
send_next-fields s = (refl, refl, refl, refl, refl, refl, refl)

-- The segment has the sender's next number, and the numbers do not wrap.
next_segment_number :
    (s : TcpSender) (n : ℕ)
    → IsValid s
    → n ≤ max_payload_size + 1
    → ((next_segment s).header.seqno ≡ wrap s.next_seq_no s.isn)
      × (add64 s.next_seq_no n ≡ s.next_seq_no + n)
unfolding next_segment
next_segment_number s n v h = (refl, omega (arith, v.next_word))

-- One round keeps the invariant.
pub send_next-IsValid :
    (s : TcpSender)
    → IsValid s
    → nothing_to_send s ≡ false
    → s.last_ack_no + 2 ^ 16 < 2 ^ 63
    → IsValid (send_next s)
unfolding send_next
send_next-IsValid s v h k =
    let (a, b, c) = length-next_segment s v h in
    let room = free_window_size_lem s v (omega arith) in
    send_segment-IsValid (record s { stream = ByteStream.pop_output s.stream (send_size s) })
      (next_segment s)
      (record {
        oldest = v.oldest;
        isn_word = v.isn_word;
        stream_valid = Validity.pop_output-IsValid (send_size s) v.stream_valid;
        chain = v.chain;
        in_flight = v.in_flight;
        oldest_acked = v.oldest_acked;
        acked_sent = v.acked_sent;
        partly = v.partly;
        window_word = v.window_word;
        ahead = v.ahead;
        next_word = v.next_word;
        running = v.running;
      })
      (unfold next_segment in refl) a (omega arith) (omega arith) (omega arith)

free_window_size-less :
    (s t : TcpSender) (n : ℕ)
    → IsValid s
    → 0 < n
    → n ≤ free_window_size s
    → t.next_seq_no ≡ add64 s.next_seq_no n
    → t.last_ack_no ≡ s.last_ack_no
    → t.window_size ≡ s.window_size
    → free_window_size t < free_window_size s
unfolding free_window_size
free_window_size-less s t n v a b e f g = ground arith

-- One round leaves less of the window free.
pub free_window_size-send_next :
    (s : TcpSender)
    → IsValid s
    → nothing_to_send s ≡ false
    → free_window_size (send_next s) < free_window_size s
free_window_size-send_next s v h =
    let (a, b, c) = length-next_segment s v h in
    let (e, f, g, _, _, _, _) = send_next-fields s in
    free_window_size-less s (send_next s) (length_in_sequence_space (next_segment s)) v a b e f g

-- The payloads of a queue of segments, one after another.
abbrev pub payloads : List TcpSegment → List ℕ
payloads [] = []
payloads (seg ∷ segs) = seg.payload ++ payloads segs

pub payloads-append : (xs ys : List TcpSegment) → payloads (xs ++ ys) ≡ payloads xs ++ payloads ys
payloads-append [] ys = refl
payloads-append (x ∷ xs) ys =
    rw (payloads-append xs ys) (sym (append_assoc x.payload (payloads xs) (payloads ys)))

-- What a round reads from the stream is what it sends.
payloads-send_next :
    (s : TcpSender)
    → IsValid s
    → payloads (send_next s).segments_out ++ contents (send_next s).stream
      ≡ payloads s.segments_out ++ contents s.stream
payloads-send_next s v =
    let (_, _, _, e, f, _, _) = send_next-fields s in
    rw (e, f, payloads-append s.segments_out (next_segment s ∷ []))
      (append_assoc (payloads s.segments_out) ((next_segment s).payload ++ [])
          (contents (ByteStream.pop_output s.stream (send_size s)))
        ∙ ap (◌++◌ (payloads s.segments_out)) (
            ap (λ t. t ++ contents (ByteStream.pop_output s.stream (send_size s)))
              (append-nil (next_segment s).payload)
            ∙ unfold next_segment in sym (removed-append (send_size s) v.stream_valid)))

-- What filling the window has done to a sender: `sent` are the new segments, whose numbers follow one
-- another from the sender's next number on.
pub record Filled (s s' : TcpSender) : Type 0 where
  pub valid : IsValid s'
  pub bytes :
      payloads s'.segments_out ++ contents s'.stream ≡ payloads s.segments_out ++ contents s.stream
  pub in_window : s'.next_seq_no ≤ max s.next_seq_no (s.last_ack_no + max s.window_size 1)
  pub same_ack : s'.last_ack_no ≡ s.last_ack_no
  pub same_window : s'.window_size ≡ s.window_size
  pub sent : List TcpSegment
  pub queued : s'.segments_out ≡ s.segments_out ++ sent
  pub kept : s'.outstanding_segments ≡ s.outstanding_segments ++ sent
  pub numbered : Chain s.isn s.next_seq_no sent s'.next_seq_no
  pub same_isn : s'.isn ≡ s.isn

-- With more fuel than the window has free, the loop ends by its own test.
fill_loop-Filled :
    (fuel : ℕ) (s : TcpSender)
    → IsValid s
    → free_window_size s < fuel
    → s.last_ack_no + 2 ^ 16 < 2 ^ 63
    → (s' : TcpSender) × (fill_loop fuel s ≡ some s') × Filled s s' × (nothing_to_send s' ≡ true)
unfolding fill_loop
fill_loop-Filled zero s v h k = absurd (omega arith)
fill_loop-Filled (suc fuel) s v h k = elim (Bool-cases (nothing_to_send s)) [
  | inl e ↦ (
    s,
    rw e,
    record {
      valid = v;
      bytes = refl;
      in_window = omega arith;
      same_ack = refl;
      same_window = refl;
      sent = [];
      queued = sym (append-nil s.segments_out);
      kept = sym (append-nil s.outstanding_segments);
      numbered = refl;
      same_isn = refl;
    },
    e,
  )
  | inr e ↦
      let (next, ack, window, out, _, isn, held) = send_next-fields s in
      let (a, b, c) = length-next_segment s v e in
      let (seqno, sum) = next_segment_number s (length_in_sequence_space (next_segment s)) v c in
      let free = free_window_size_lem s v (omega arith) in
      let (s', run, f, stop) =
        fill_loop-Filled fuel (send_next s) (send_next-IsValid s v e k)
          (omega (arith, free_window_size-send_next s v e)) (omega arith) in
      (
        s',
        rw e run,
        record {
          valid = f.valid;
          bytes = f.bytes ∙ payloads-send_next s v;
          in_window = omega (arith, f.in_window);
          same_ack = f.same_ack ∙ ack;
          same_window = f.same_window ∙ window;
          sent = next_segment s ∷ f.sent;
          queued =
              f.queued
              ∙ ap (λ t. t ++ f.sent) out
              ∙ append_assoc s.segments_out (next_segment s ∷ []) f.sent;
          kept =
              f.kept
              ∙ ap (λ t. t ++ f.sent) held
              ∙ append_assoc s.outstanding_segments (next_segment s ∷ []) f.sent;
          numbered = (
            seqno,
            a,
            omega (arith, c),
            subst₂ (λ i n. Chain i n f.sent s'.next_seq_no) isn (next ∙ sum) f.numbered,
          );
          same_isn = f.same_isn ∙ isn;
        },
        stop,
      )
]

-- Nothing more can be sent now: the window is full, or the stream is empty and no FIN is due.
abbrev pub IsDone : TcpSender → Type 0
IsDone s = (free_window_size s ≡ 0) ⊎ ((s.stream.used_size ≡ 0) × (need_send_fin s ≡ false))

nothing_to_send-IsDone : (s : TcpSender) → nothing_to_send s ≡ true → IsDone s
unfolding nothing_to_send
nothing_to_send-IsDone s h = elim (dec_lt 0 (free_window_size s)) [
  | yes p ↦ inr (ground arith)
  | no p ↦ inl (omega arith)
]

length-syn_segment : (s : TcpSender) → length_in_sequence_space (syn_segment s) ≡ 1
unfolding length_in_sequence_space
length-syn_segment s = refl

pub is_closed-state : (s : TcpSender) → is_closed (state s) ≡ true → s.next_seq_no ≡ 0
unfolding state
is_closed-state s h = ground arith

wrap-zero : (isn : ℕ) → isn < 2 ^ 32 → wrap 0 isn ≡ isn
unfolding wrap
wrap-zero isn h = omega arith

pub send_syn-Filled :
    (s : TcpSender)
    → IsValid s
    → s.next_seq_no ≡ 0
    → Filled s (send_segment s (syn_segment s)) × ((send_segment s (syn_segment s)).next_seq_no ≡ 1)
send_syn-Filled s v z =
    let one = length-syn_segment s in
    let valid =
      send_segment-IsValid s (syn_segment s) v (rw z (sym (wrap-zero s.isn v.isn_word)))
        (omega arith) (omega arith) (omega arith) (omega arith) in
    (
      record {
        valid = valid;
        bytes =
            unfold send_segment in
            ap (λ t. t ++ contents s.stream)
              (payloads-append s.segments_out (syn_segment s ∷ [])
                ∙ append-nil (payloads s.segments_out));
        in_window = unfold send_segment in omega (arith, one);
        same_ack = unfold send_segment in refl;
        same_window = unfold send_segment in refl;
        sent = syn_segment s ∷ [];
        queued = unfold send_segment in refl;
        kept = unfold send_segment in refl;
        numbered = (
          rw z (sym (wrap-zero s.isn v.isn_word)),
          omega (arith, one),
          omega (arith, one),
          unfold send_segment in omega (arith, one),
        );
        same_isn = unfold send_segment in refl;
      },
      unfold send_segment in omega (arith, one),
    )

-- One segment was sent, the SYN: it has the initial number, no other flag and no payload.
pub record SynSent (s s' : TcpSender) : Type 0 where
  pub syn : TcpSegment
  pub queued : s'.segments_out ≡ s.segments_out ++ syn ∷ []
  pub outstanding : s'.outstanding_segments ≡ s.outstanding_segments ++ syn ∷ []
  pub next : s'.next_seq_no ≡ 1
  pub has_syn : syn.header.syn ≡ true
  pub numbered : syn.header.seqno ≡ s.isn
  pub no_flags : (syn.header.fin ≡ false) × (syn.header.ack ≡ false) × (syn.header.rst ≡ false)
  pub no_payload : syn.payload ≡ []

send_syn-SynSent : (s : TcpSender) → s.next_seq_no ≡ 0 → SynSent s (send_segment s (syn_segment s))
unfolding send_segment
send_syn-SynSent s z = record {
  syn = syn_segment s;
  queued = refl;
  outstanding = refl;
  next = omega (arith, length-syn_segment s);
  has_syn = refl;
  numbered = refl;
  no_flags = (refl, refl, refl);
  no_payload = refl;
}

-- `fill_window` always ends. It keeps the invariant, sends the bytes that it takes from the stream,
-- in order, and no sequence number beyond the window of the peer (a window of zero counts as one).
-- The segments that it sends are outstanding too, and have the numbers that follow one another from
-- the next on. Before the SYN is sent it sends that alone, with the initial number, no other flag and
-- no payload; from then on it goes on until the window is full or nothing is left to send.
pub fill_window-Filled :
    (s : TcpSender)
    → IsValid s
    → s.last_ack_no + 2 ^ 16 < 2 ^ 63
    → (s' : TcpSender) × (fill_window s ≡ some s')
      × Filled s s'
      × (((state s ≡ closed) × SynSent s s') ⊎ IsDone s')
unfolding fill_window
fill_window-Filled s v k = elim (Bool-cases (is_closed (state s))) [
  | inl e ↦
      let filled = send_syn-Filled s v (is_closed-state s e) in
      (
        send_segment s (syn_segment s),
        rw e refl,
        filled.0,
        inl (closed_lem (state s) e, send_syn-SynSent s (is_closed-state s e)),
      )
  | inr e ↦
      let (s', run, filled, stop) =
        fill_loop-Filled (suc (free_window_size s)) s v (omega arith) k in
      (s', rw e run, filled, inr (nothing_to_send-IsDone s' stop))
]
  where
    closed_lem : (t : State) → is_closed t ≡ true → t ≡ closed
    closed_lem closed h = refl
    closed_lem error h = cc
    closed_lem syn_sent h = cc
    closed_lem syn_acked h = cc
    closed_lem fin_sent h = cc
    closed_lem fin_acked h = cc
