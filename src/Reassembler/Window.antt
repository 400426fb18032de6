-- ===== src/Reassembler/Window.antt =====
-- A whole call of `StreamReassembler::push_substring`, for a substring inside the advertised window.
use cs144_labs.Prelude.{
  ℕ, ◌+◌, ◌-◌, ◌^◌, ◌≤◌, ◌<◌, max, ◌≡◌, inl, inr, refl, sym, ap, ◌∙◌, Bool, false, ◌||◌, Option,
  none, some, List, arith, ltb, ◌==◌, if◌then◌else◌, ltb→lt, lt→ltb, ltb→le, le→ltb, Bool-cases,
  length, length-drop, get_or-drop, add64, sub64,
}
use cs144_labs.Reassembler.{
  StreamReassembler, View, skip_written, cut_to_capacity, feed, end_at_eof, push_view,
  push_substring,
}
use cs144_labs.Reassembler.Buffer.Holding.{IsPart}
use cs144_labs.Reassembler.Assembly.{Assembles, Assembled, room}
use cs144_labs.Reassembler.Pushing.{known, feed-Assembled}

-- Whether the end of the stream is known and reached.
abbrev pub at_end : Option ℕ → ℕ → Bool
at_end none n = false
at_end (some e) n = n == e

-- Ending the input changes nothing else.
end_at_eof_lem :
    (r : StreamReassembler)
    → (end_at_eof r ≡ record r {
      output = record r.output {
        input_ended = r.output.input_ended || at_end r.eof_index r.output.bytes_written;
      };
    })
unfolding end_at_eof
end_at_eof_lem r = ground arith

-- What a whole call has done, with the end of the stream.
pub record Pushed (stream : ℕ → ℕ) (r : StreamReassembler) (index n : ℕ) (eof : Bool)
    (r' : StreamReassembler) : Type 0 where
  pub assembled : Assembled stream r (known r index n) r'
  pub eof_known : r'.eof_index ≡ (if eof then some (index + n) else r.eof_index)
  pub ended :
      r'.output.input_ended ≡ (r.output.input_ended || at_end r'.eof_index r'.output.bytes_written)

-- Neither the mark of the end nor the end of the input matters to what was written.
Assembled-ended :
    (stream : ℕ → ℕ) (r : StreamReassembler) (mark : Option ℕ) (covered : ℕ → Bool)
    (r' : StreamReassembler) (b : Bool)
    → Assembled stream (record r { eof_index = mark }) covered r'
    → Assembled stream r covered (record r' { output = record r'.output { input_ended = b } })
Assembled-ended stream r mark covered r' b a =
    let s = a.assembles in
    let v = s.output_valid in
    record {
      count = a.count;
      assembles = record {
        output_valid = record {
          storage = v.storage;
          room = v.room;
          small = v.small;
          start_in = v.start_in;
          used_in = v.used_in;
          written_word = v.written_word;
          counted = v.counted;
        };
        holds = s.holds;
        same_output = s.same_output;
        same_buffer = s.same_buffer;
        waiting = s.waiting;
        within = s.within;
      };
      capacity_same = a.capacity_same;
      written = a.written;
      delivered = a.delivered;
      used_more = a.used_more;
      no_gap = a.no_gap;
      stops = a.stops;
      keeps = a.keeps;
      error_same = a.error_same;
    }

-- Only the indices from the first unwritten one on matter.
Assembled-ext :
    (stream : ℕ → ℕ) (r : StreamReassembler) (c d : ℕ → Bool) (r' : StreamReassembler)
    → ((j : ℕ) → r.output.bytes_written ≤ j → c j ≡ d j)
    → Assembled stream r c r'
    → Assembled stream r d r'
Assembled-ext stream r c d r' e a = record {
  count = a.count;
  assembles = a.assembles;
  capacity_same = a.capacity_same;
  written = a.written;
  delivered = a.delivered;
  used_more = a.used_more;
  no_gap = λ j h k. sym (e j h) ∙ a.no_gap j h k;
  stops = sym (e _ (omega arith)) ∙ a.stops;
  keeps = λ j h. a.keeps j h ∙ e j (omega arith);
  error_same = a.error_same;
}

-- The part of a substring that is not written yet.
skip_written_lem :
    (stream : ℕ → ℕ) (bw : ℕ) (bytes : List ℕ) (index : ℕ)
    → bw ≤ index + length bytes
    → index + length bytes < 2 ^ 64
    → IsPart stream bytes index
    → let v = skip_written bw bytes index in
      (bw ≤ v.index)
      × (index ≤ v.index)
      × (v.index + length v.sv ≡ index + length bytes)
      × (v.index ≡ max bw index)
      × IsPart stream v.sv v.index
unfolding skip_written
skip_written_lem stream bw bytes index h k part = elim (Bool-cases (ltb index bw)) [
  | inl t ↦
      let p : index < bw = ltb→lt index bw t in
      let e : sub64 bw index ≡ bw - index = omega arith in
      rw (t, e)
        (
          omega arith,
          omega arith,
          omega (arith, length-drop (bw - index) bytes),
          omega arith,
          λ i q.
              get_or-drop 0 (bw - index) bytes i
              ∙ part (bw - index + i) (omega (arith, length-drop (bw - index) bytes))
              ∙ ap stream (omega arith),
        )
  | inr t ↦ let p : bw ≤ index = ltb→le index bw t in rw t (p, omega arith, refl, omega arith, part)
]

-- Inside the window nothing is cut off.
cut_to_capacity_lem :
    (capacity bw : ℕ) (v : View)
    → capacity < 2 ^ 64
    → bw ≤ v.index
    → v.index + length v.sv ≤ bw + capacity
    → cut_to_capacity capacity bw v ≡ v
unfolding cut_to_capacity
cut_to_capacity_lem capacity bw v h k l = ground arith

known_same :
    (r : StreamReassembler) (i m index n j : ℕ)
    → r.output.bytes_written ≤ j
    → i ≡ max r.output.bytes_written index
    → i + m ≡ index + n
    → known r i m j ≡ known r index n j
known_same r i m index n j h k l = ground arith

push_view_fed :
    (r : StreamReassembler) (v : View) (eof : Bool) (fed : StreamReassembler)
    → feed
        (record r { eof_index = if eof then some (add64 v.index (length v.sv)) else r.eof_index })
        v.sv
        v.index
      ≡ some fed
    → push_view r v eof
      ≡ some (record fed {
        output = record fed.output {
          input_ended = fed.output.input_ended || at_end fed.eof_index fed.output.bytes_written;
        };
      })
unfolding push_view
push_view_fed r v eof fed e = rw (e, push_view) (ap some (end_at_eof_lem fed))

push_view-Pushed :
    (stream : ℕ → ℕ) (r : StreamReassembler) (v : View) (eof : Bool)
    → Assembles stream r
    → r.output.bytes_written + r.capacity < 2 ^ 64
    → IsPart stream v.sv v.index
    → r.output.bytes_written ≤ v.index
    → v.index + length v.sv ≤ r.output.bytes_written + room r
    → (r' : StreamReassembler) × (push_view r v eof ≡ some r')
      × Pushed stream r v.index (length v.sv) eof r'
push_view-Pushed stream r v eof a word part h k =
    let mark = if eof then some (add64 v.index (length v.sv)) else r.eof_index in
    let marked = record r { eof_index = mark } in
    let start : Assembles stream marked = record {
      output_valid = a.output_valid;
      holds = a.holds;
      same_output = a.same_output;
      same_buffer = a.same_buffer;
      waiting = a.waiting;
      within = a.within;
    } in
    let (fed, e, done, ended, eof_same) =
      feed-Assembled stream marked v.sv v.index start word part h k in
    let exact : add64 v.index (length v.sv) ≡ v.index + length v.sv = omega arith in
    let flag = fed.output.input_ended || at_end fed.eof_index fed.output.bytes_written in
    (
      record fed { output = record fed.output { input_ended = flag } },
      push_view_fed r v eof fed e,
      record {
        assembled = Assembled-ended stream r mark (known r v.index (length v.sv)) fed flag done;
        eof_known = eof_same ∙ ap (λ t. if eof then some t else r.eof_index) exact;
        ended = ap (λ t. t || at_end fed.eof_index fed.output.bytes_written) ended;
      },
    )

-- A substring of the stream that ends inside the advertised window, and not before what is written,
-- is accepted. The output gets the next bytes of the stream, in order and exactly as many as are now
-- there without a gap; every other byte that was given is held at its index. The input of the output
-- stream has ended if it had, or if the end of the stream is known and all bytes before it are written.
pub push_substring-Pushed :
    (stream : ℕ → ℕ) (r : StreamReassembler) (bytes : List ℕ) (index : ℕ) (eof : Bool)
    → Assembles stream r
    → r.output.bytes_written + r.capacity < 2 ^ 64
    → IsPart stream bytes index
    → r.output.bytes_written ≤ index + length bytes
    → index + length bytes ≤ r.output.bytes_written + room r
    → (r' : StreamReassembler) × (push_substring r bytes index eof ≡ some r')
      × Pushed stream r index (length bytes) eof r'
unfolding push_substring
push_substring-Pushed stream r bytes index eof a word part h k =
    let bw = r.output.bytes_written in
    let v = skip_written bw bytes index in
    let (v_start, v_later, v_end, v_max, v_part) =
      skip_written_lem stream bw bytes index h (omega arith) part in
    let (r', e, p) = push_view-Pushed stream r v eof a word v_part v_start (omega arith) in
    let whole = cut_to_capacity_lem r.capacity bw v (omega arith) v_start (omega arith) in
    (
      r',
      rw (whole, le→ltb (add64 index (length bytes)) bw (omega arith)) e,
      record {
        assembled =
            Assembled-ext stream r (known r v.index (length v.sv)) (known r index (length bytes)) r'
              (λ j q. known_same r v.index (length v.sv) index (length bytes) j q v_max v_end)
              p.assembled;
        eof_known = p.eof_known ∙ ap (λ t. if eof then some t else r.eof_index) v_end;
        ended = p.ended;
      },
    )

-- A substring whose bytes were all written before changes nothing.
pub push_substring_stale :
    (r : StreamReassembler) (bytes : List ℕ) (index : ℕ) (eof : Bool)
    → index + length bytes < r.output.bytes_written
    → r.output.bytes_written < 2 ^ 64
    → push_substring r bytes index eof ≡ some r
unfolding push_substring
push_substring_stale r bytes index eof h k =
    rw (lt→ltb (add64 index (length bytes)) r.output.bytes_written (omega arith)) refl
