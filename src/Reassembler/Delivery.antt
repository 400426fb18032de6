-- ===== src/Reassembler/Delivery.antt =====
-- Any order of arrivals and reads: what the reader has had is the beginning of the stream.
use cs144_labs.Prelude.{
  ℕ, ◌+◌, ◌-◌, ◌^◌, ◌≤◌, ◌<◌, ◌≡◌, refl, sym, ap, ◌∙◌, Bool, true, false, some, List, [], ◌++◌,
  arith, ltb, lt→ltb, le→ltb, length, get_or, tabulate, length-append, length-replicate,
  length-tabulate, get_or-append, get_or-tabulate, list_ext,
}
use mathlib.Core.Path.{subst, subst₂}
use cs144_labs.Prelude.{some_inj}
use mathlib.Core.List.{append_assoc}
use cs144_labs.Prelude.{tabulate-zero}
use native.Mathlib.Decide.{dec_lt}
use cs144_labs.ByteStream
use cs144_labs.ByteStream.{ByteStream, read}
use cs144_labs.ByteStream.Validity
use cs144_labs.ByteStream.Refinement.{contents}
use cs144_labs.ByteStream.History.{removed-append}
use cs144_labs.Reassembler.{StreamReassembler, new, push_substring}
use cs144_labs.Reassembler.Intervals.Apart.{EndsBy-mono}
use cs144_labs.Reassembler.Buffer.Holding.{IsPart}
use cs144_labs.Reassembler.Buffer.Pushing.{stretch}
use cs144_labs.Reassembler.Assembly.{Assembles, Assembled, room}
use cs144_labs.Reassembler.Window.{push_substring-Pushed, push_substring_stale}

-- A new reassembler has seen nothing.
pub new-Assembles :
    (stream : ℕ → ℕ) (capacity : ℕ)
    → 0 < capacity
    → capacity < 2 ^ 63
    → Assembles stream (new capacity)
unfolding new
new-Assembles stream capacity h k = record {
  output_valid = Validity.new-IsValid capacity h k;
  holds = record {
    storage = length-replicate {A = ℕ} capacity 0;
    room = h;
    small = k;
    start_in = h;
    apart = tt;
    ends = tt;
    counted = refl;
    bytes = λ j c. cc;
  };
  same_output = refl;
  same_buffer = refl;
  waiting = refl;
  within = tt;
}

-- A read from the output of a reassembler.
abbrev pub read_output : StreamReassembler → ℕ → StreamReassembler
read_output r len = record r { output = (read r.output len).0 }

pub read_output-Assembles :
    (stream : ℕ → ℕ) (r : StreamReassembler) (len : ℕ)
    → Assembles stream r
    → Assembles stream (read_output r len)
unfolding read ByteStream.pop_output
read_output-Assembles stream r len a = record {
  output_valid = Validity.read-IsValid len a.output_valid;
  holds = a.holds;
  same_output = a.same_output;
  same_buffer = a.same_buffer;
  waiting = a.waiting;
  within =
      EndsBy-mono (r.output.bytes_written + room r) _ r.buffer.index_map (omega arith) a.within;
}

-- A new reassembler after any arrivals and reads, with what was read. Every arrival is a part of the
-- stream that ends inside the window advertised at the time; it may overlap others, repeat them, or
-- leave a gap.
pub data Run (stream : ℕ → ℕ) (capacity : ℕ) : List ℕ → StreamReassembler → Type 0 where
  starts : {r : StreamReassembler} → r ≡ new capacity → Run stream capacity [] r
  arrives :
      {out : List ℕ} {r r' : StreamReassembler} (bytes : List ℕ) (index : ℕ) (eof : Bool)
      → Run stream capacity out r
      → IsPart stream bytes index
      → index + length bytes ≤ r.output.bytes_written + room r
      → r.output.bytes_written + r.capacity < 2 ^ 64
      → push_substring r bytes index eof ≡ some r'
      → Run stream capacity out r'
  reads :
      {out out' : List ℕ} {r r' : StreamReassembler} (len : ℕ)
      → Run stream capacity out r
      → out' ≡ out ++ (read r.output len).1
      → r' ≡ read_output r len
      → Run stream capacity out' r'

-- What holds of every run.
pub record Delivered (stream : ℕ → ℕ) (out : List ℕ) (r : StreamReassembler) : Type 0 where
  pub assembles : Assembles stream r
  pub in_order : out ++ contents r.output ≡ tabulate stream r.output.bytes_written

pub tabulate-append :
    (f : ℕ → ℕ) (n k : ℕ) → tabulate f (n + k) ≡ tabulate f n ++ tabulate (λ i. f (n + i)) k
tabulate-append f n k =
    list_ext 0 _ _
      (omega (
        arith,
        length-tabulate f (n + k),
        length-append (tabulate f n) (tabulate (λ i. f (n + i)) k),
        length-tabulate f n,
        length-tabulate (λ i. f (n + i)) k,
      ))
      λ i h. entry i (omega (arith, length-tabulate f (n + k)))
  where
    rest : List ℕ
    rest = tabulate (λ j. f (n + j)) k

    entry :
        (i : ℕ) → i < n + k → get_or (tabulate f (n + k)) i 0 ≡ get_or (tabulate f n ++ rest) i 0
    entry i h = elim (dec_lt i n) [
      | yes p ↦
          let e : ltb i (length (tabulate f n)) ≡ true =
            lt→ltb _ _ (omega (arith, length-tabulate f n)) in
          get_or-tabulate 0 f (n + k) i h
          ∙ sym (get_or-append 0 (tabulate f n) rest i ∙ rw e (get_or-tabulate 0 f n i p))
      | no p ↦
          let e : ltb i (length (tabulate f n)) ≡ false =
            le→ltb _ _ (omega (arith, length-tabulate f n)) in
          let m : i - length (tabulate f n) ≡ i - n = omega (arith, length-tabulate f n) in
          get_or-tabulate 0 f (n + k) i h
          ∙ sym (
              get_or-append 0 (tabulate f n) rest i
              ∙ rw (e, m)
                  (get_or-tabulate 0 (λ j. f (n + j)) k (i - n) (omega arith) ∙ ap f (omega arith)))
    ]

pub pushed_in_order :
    (stream : ℕ → ℕ) (out : List ℕ) (r r' : StreamReassembler) (covered : ℕ → Bool)
    → Delivered stream out r
    → Assembled stream r covered r'
    → Delivered stream out r'
pushed_in_order stream out r r' covered d a = record {
  assembles = a.assembles;
  in_order =
      rw (a.delivered, a.written)
        (sym (append_assoc out (contents r.output) (stretch stream r.output.bytes_written a.count))
          ∙ ap (λ t. t ++ stretch stream r.output.bytes_written a.count) d.in_order
          ∙ sym (tabulate-append stream r.output.bytes_written a.count));
}

pub new-Delivered :
    (stream : ℕ → ℕ) (capacity : ℕ)
    → 0 < capacity
    → capacity < 2 ^ 63
    → Delivered stream [] (new capacity)
unfolding new
new-Delivered stream capacity h k = record {
  assembles = new-Assembles stream capacity h k;
  in_order = tabulate-zero _ ∙ sym (tabulate-zero stream);
}

arrives-Delivered :
    (stream : ℕ → ℕ) (out : List ℕ) (r r' : StreamReassembler) (bytes : List ℕ) (index : ℕ)
    (eof : Bool)
    → Delivered stream out r
    → IsPart stream bytes index
    → index + length bytes ≤ r.output.bytes_written + room r
    → r.output.bytes_written + r.capacity < 2 ^ 64
    → push_substring r bytes index eof ≡ some r'
    → Delivered stream out r'
arrives-Delivered stream out r r' bytes index eof d part h w e =
    elim (dec_lt (index + length bytes) r.output.bytes_written) [
      | yes p ↦
          subst (Delivered stream out)
            (some_inj (sym (push_substring_stale r bytes index eof p (omega arith)) ∙ e)) d
      | no p ↦
          let (r'', e'', pushed) =
            push_substring-Pushed stream r bytes index eof d.assembles w part (omega arith) h in
          subst (Delivered stream out) (some_inj (sym e'' ∙ e))
            (pushed_in_order stream out r r'' _ d pushed.assembled)
    ]

pub reads-Delivered :
    (stream : ℕ → ℕ) (out : List ℕ) (r : StreamReassembler) (len : ℕ)
    → Delivered stream out r
    → Delivered stream (out ++ (read r.output len).1) (read_output r len)
unfolding read ByteStream.pop_output
reads-Delivered stream out r len d = record {
  assembles = read_output-Assembles stream r len d.assembles;
  in_order =
      append_assoc out (ByteStream.peek_output r.output len)
        (contents (ByteStream.pop_output r.output len))
      ∙ ap (◌++◌ out) (sym (removed-append len d.assembles.output_valid))
      ∙ d.in_order;
}

-- Whatever the order of arrivals and reads, and whatever overlaps, repeats and gaps there were: what
-- the reader has had, with what waits in the output, is the beginning of the stream, byte for byte.
pub Run-Delivered :
    {stream : ℕ → ℕ} {capacity : ℕ} {out : List ℕ} {r : StreamReassembler}
    → 0 < capacity
    → capacity < 2 ^ 63
    → Run stream capacity out r
    → Delivered stream out r
Run-Delivered {stream} {capacity} h k (starts e) =
    subst (Delivered stream []) (sym e) (new-Delivered stream capacity h k)
Run-Delivered {stream} {capacity} h k
      (arrives {out = o} {r = r} {r' = r'} bytes index eof run part inside w e) =
    arrives-Delivered stream o r r' bytes index eof (Run-Delivered h k run) part inside w e
Run-Delivered {stream} {capacity} h k (reads {out = o} {r = r} len run e f) =
    subst₂ (Delivered stream) (sym e) (sym f)
      (reads-Delivered stream o r len (Run-Delivered h k run))
