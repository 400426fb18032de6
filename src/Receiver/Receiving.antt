-- ===== src/Receiver/Receiving.antt =====
-- `TCPReceiver::segment_received`, for segments inside the advertised window.
use cs144_labs.Prelude.{
  ℕ, ◌+◌, ◌^◌, ◌≤◌, ◌<◌, ◌≡◌, refl, sym, ap, ◌∙◌, Bool, true, false, some, arith, if◌then◌else◌,
  length, sub64,
}
use native.Mathlib.Decide.{dec_lt}
use cs144_labs.ByteStream
use cs144_labs.ByteStream.{ByteStream}
use cs144_labs.Wrapping.{advance, wrap, unwrap}
use cs144_labs.Wrapping.Closest.{unwrap-wrap}
use cs144_labs.Segment.{TcpSegment}
use cs144_labs.Reassembler
use cs144_labs.Reassembler.{StreamReassembler}
use cs144_labs.Reassembler.Buffer.Holding.{IsPart}
use cs144_labs.Reassembler.Pushing.{known}
use cs144_labs.Reassembler.Assembly.{Assembled}
use cs144_labs.Reassembler.Window.{Pushed, push_substring-Pushed, push_substring_stale}
use cs144_labs.Reassembler.Delivery.{new-Assembles}
use cs144_labs.Receiver.{
  TcpReceiver, syn_recv, fin_recv, new, state, is_listening, abs_ack_no, window_size, push_at,
  deliver, open_with, segment_received,
}
use cs144_labs.Receiver.Validity.{Receives, state-Receives, fin_count, abs_ack_no-Receives}

-- What a segment with the payload at stream index `index` has done.
pub record Received (stream : ℕ → ℕ) (isn : ℕ) (r : TcpReceiver) (index n : ℕ) (fin : Bool)
    (r' : TcpReceiver) : Type 0 where
  pub receives : Receives stream isn r'
  pub stale : index + n < r.reassembler.output.bytes_written → r' ≡ r
  pub pushed :
      r.reassembler.output.bytes_written ≤ index + n
      → Pushed stream r.reassembler index n fin r'.reassembler
  pub complete :
      index ≤ r.reassembler.output.bytes_written → index + n ≤ r'.reassembler.output.bytes_written

-- The number after the SYN, if the segment has one.
abbrev pub first_number : TcpSegment → ℕ
first_number seg = advance seg.header.seqno (if seg.header.syn then 1 else 0)

-- What is known from the first unwritten byte on is written.
written_past :
    (stream : ℕ → ℕ) (a : StreamReassembler) (index n : ℕ) (a' : StreamReassembler)
    → index ≤ a.output.bytes_written
    → Assembled stream a (known a index n) a'
    → index + n ≤ a'.output.bytes_written
written_past stream a index n a' h d =
    let stops = d.stops in let written = d.written in ground (arith, stops, written)

push_at-Received :
    (stream : ℕ → ℕ) (isn : ℕ) (r : TcpReceiver) (seg : TcpSegment) (index : ℕ)
    → Receives stream isn r
    → r.reassembler.output.bytes_written + r.capacity < 2 ^ 64
    → IsPart stream seg.payload index
    → index + length seg.payload ≤ r.reassembler.output.bytes_written + window_size r
    → (r' : TcpReceiver) × (push_at r seg (index + 1) ≡ some r')
      × Received stream isn r index (length seg.payload) seg.header.fin r'
unfolding push_at
push_at-Received stream isn r seg index v w part h =
    let bw = r.reassembler.output.bytes_written in
    let a = v.assembles in
    let e : sub64 (index + 1) 1 ≡ index = omega arith in
    elim (dec_lt (index + length seg.payload) bw) [
      | yes p ↦ (
        r,
        rw (e, push_substring_stale r.reassembler seg.payload index seg.header.fin p (omega arith))
            (ground arith),
        record {
          receives = v;
          stale = λ _. refl;
          pushed = λ q. absurd (omega arith);
          complete = λ q. omega arith;
        },
      )
      | no p ↦
          let (b, run, done) =
            push_substring-Pushed stream r.reassembler seg.payload index seg.header.fin a
              (omega arith) part (omega arith) (omega arith) in
          (
            record r { reassembler = b },
            rw (e, run) (ground arith),
            record {
              receives = record {
                assembles = done.assembled.assembles;
                same_capacity = v.same_capacity ∙ sym done.assembled.capacity_same;
                isn_known = v.isn_known;
                isn_word = v.isn_word;
                not_listening = v.not_listening;
                no_error = done.assembled.error_same ∙ v.no_error;
              };
              stale = λ q. absurd (p q);
              pushed = λ _. done;
              complete = λ q.
                  written_past stream r.reassembler index (length seg.payload) b q done.assembled;
            },
          )
    ]

-- The receiver's number for the payload, from a segment near the acknowledged one.
pub unwrap_near :
    (stream : ℕ → ℕ) (isn : ℕ) (r : TcpReceiver) (seg : TcpSegment) (index : ℕ)
    → Receives stream isn r
    → r.reassembler.output.bytes_written + 2 ^ 33 < 2 ^ 64
    → first_number seg ≡ wrap (index + 1) isn
    → index < r.reassembler.output.bytes_written + 2 ^ 31
    → r.reassembler.output.bytes_written + 1 ≤ index + 2 ^ 31
    → unwrap (first_number seg) isn (abs_ack_no r) ≡ index + 1
unwrap_near stream isn r seg index v w e h k =
    let n = abs_ack_no-Receives v (omega arith) in
    let f = fin_count_bound r.reassembler.output.input_ended in
    rw e (
      unwrap-wrap (index + 1) isn (abs_ack_no r) v.isn_word (omega arith) (omega arith)
        (omega arith))
  where
    fin_count_bound : (b : Bool) → fin_count b ≤ 1
    fin_count_bound true = omega arith
    fin_count_bound false = omega arith

pub segment_received-deliver :
    (r : TcpReceiver) (seg : TcpSegment)
    → is_listening (state r) ≡ false
    → segment_received r seg ≡ deliver r seg r.isn
unfolding segment_received
segment_received-deliver r seg e = rw e

pub deliver-push_at :
    (r : TcpReceiver) (seg : TcpSegment) (isn n : ℕ)
    → unwrap (first_number seg) isn (abs_ack_no r) ≡ n
    → deliver r seg (some isn) ≡ push_at r seg n
unfolding deliver
deliver-push_at r seg isn n e = ap (push_at r seg) e

pub is_listening-Receives :
    {stream : ℕ → ℕ} {isn : ℕ} {r : TcpReceiver}
    → Receives stream isn r
    → is_listening (state r) ≡ false
is_listening-Receives {r = r} v =
    ap is_listening (state-Receives v) ∙ by_end r.reassembler.output.input_ended
  where
    by_end : (b : Bool) → is_listening (if b then fin_recv else syn_recv) ≡ false
    by_end true = refl
    by_end false = refl

-- While the counters are far from the end of their words: a segment after the SYN, near the
-- acknowledged number by less than 2 ^ 31, whose payload is the stream's from `index` on and ends in the window, is
-- never refused, and leaves the receiver with the bytes of the stream and nothing else. If its bytes
-- were all written before, it changes nothing; if not, its payload and its FIN go to the
-- reassembler at their place, whatever the 32-bit numbers have wrapped to. If they leave no gap, they
-- are all written.
pub segment_received-Received :
    (stream : ℕ → ℕ) (isn : ℕ) (r : TcpReceiver) (seg : TcpSegment) (index : ℕ)
    → Receives stream isn r
    → r.reassembler.output.bytes_written + 2 ^ 33 < 2 ^ 64
    → r.reassembler.output.bytes_written + r.capacity < 2 ^ 64
    → first_number seg ≡ wrap (index + 1) isn
    → index < r.reassembler.output.bytes_written + 2 ^ 31
    → r.reassembler.output.bytes_written + 1 ≤ index + 2 ^ 31
    → IsPart stream seg.payload index
    → index + length seg.payload ≤ r.reassembler.output.bytes_written + window_size r
    → (r' : TcpReceiver) × (segment_received r seg ≡ some r')
      × Received stream isn r index (length seg.payload) seg.header.fin r'
segment_received-Received stream isn r seg index v w w' e h k part inside =
    let (r', run, done) = push_at-Received stream isn r seg index v w' part inside in
    (
      r',
      segment_received-deliver r seg (is_listening-Receives v)
          ∙ ap (deliver r seg) v.isn_known
          ∙ deliver-push_at r seg isn (index + 1) (unwrap_near stream isn r seg index v w e h k)
          ∙ run,
      done,
    )

-- A receiver that has just been made is in the state LISTEN.
listening_new : (capacity : ℕ) → is_listening (state (new capacity)) ≡ true
unfolding new state Reassembler.new ByteStream.new
listening_new capacity = refl

-- A new receiver skips every segment without SYN.
pub skip_before_syn :
    (capacity : ℕ) (seg : TcpSegment)
    → seg.header.syn ≡ false
    → segment_received (new capacity) seg ≡ some (new capacity)
unfolding segment_received
skip_before_syn capacity seg e = rw (listening_new capacity, e)

pub open_with-Receives :
    (stream : ℕ → ℕ) (capacity isn : ℕ)
    → 0 < capacity
    → capacity < 2 ^ 63
    → isn < 2 ^ 32
    → Receives stream isn (open_with (new capacity) isn)
open_with-Receives stream capacity isn h k l = record {
  assembles = unfold new in new-Assembles stream capacity h k;
  same_capacity = unfold new Reassembler.new in refl;
  isn_known = refl;
  isn_word = l;
  not_listening = refl;
  no_error = unfold new Reassembler.new ByteStream.new in refl;
}

first_number_syn :
    (seg : TcpSegment) → seg.header.syn ≡ true → first_number seg ≡ wrap 1 seg.header.seqno
unfolding wrap
first_number_syn seg e = rw e refl

new_written : (capacity : ℕ) → (new capacity).reassembler.output.bytes_written ≡ 0
unfolding new Reassembler.new ByteStream.new
new_written capacity = refl

new_window : (capacity : ℕ) → capacity < 2 ^ 63 → window_size (new capacity) ≡ capacity
unfolding new Reassembler.new ByteStream.new
new_window capacity k = omega arith

pub opens :
    (capacity : ℕ) (seg : TcpSegment)
    → seg.header.syn ≡ true
    → segment_received (new capacity) seg
      ≡ deliver (open_with (new capacity) seg.header.seqno) seg (some seg.header.seqno)
unfolding segment_received
opens capacity seg e = rw (listening_new capacity, e)

-- A new receiver takes the number of the first SYN for its own, and with it the payload and the FIN
-- of that segment.
pub syn_received :
    (stream : ℕ → ℕ) (capacity : ℕ) (seg : TcpSegment)
    → 0 < capacity
    → capacity < 2 ^ 63
    → seg.header.seqno < 2 ^ 32
    → seg.header.syn ≡ true
    → IsPart stream seg.payload 0
    → length seg.payload ≤ capacity
    → (r' : TcpReceiver) × (segment_received (new capacity) seg ≡ some r')
      × Receives stream seg.header.seqno r'
      × Pushed stream
          (new capacity).reassembler
          0
          (length seg.payload)
          seg.header.fin
          r'.reassembler
syn_received stream capacity seg h k l e part inside =
    let isn = seg.header.seqno in
    let r = open_with (new capacity) isn in
    let v = open_with-Receives stream capacity isn h k l in
    let bw = new_written capacity in
    let win = new_window capacity k in
    let (r', run, done) =
      push_at-Received stream isn r seg 0 v (omega (arith, bw)) part (omega (arith, bw, win)) in
    (
      r',
      opens capacity seg e
          ∙ deliver-push_at r seg isn 1 (
              unwrap_near stream isn r seg 0 v (omega (arith, bw)) (first_number_syn seg e)
                (omega (arith, bw)) (omega (arith, bw)))
          ∙ run,
      done.receives,
      done.pushed (omega (arith, bw)),
    )
