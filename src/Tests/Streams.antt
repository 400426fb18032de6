-- ===== src/Tests/Streams.antt =====
-- Runs of `ByteStream`, the sequence numbers and `StreamReassembler`.
use cs144_labs.Prelude.{
  ℕ, ◌+◌, ◌^◌, ◌≤◌, ◌<◌, ◌≡◌, refl, true, ◌||◌, none, some, List, [], ◌∷◌, ◌++◌, arith, length,
  get_or, drop, get_or-drop,
}
use cs144_labs.ByteStream
use cs144_labs.ByteStream.{ByteStream, write, peek_output, pop_output}
use cs144_labs.ByteStream.Validity
use cs144_labs.ByteStream.Refinement.{contents}
use cs144_labs.ByteStream.History.{
  Call, writes, reads, pops, run, all_accepted, all_removed, run_fifo,
}
use cs144_labs.Wrapping.{wrap, unwrap}
use cs144_labs.Wrapping.Closest.{gap, unwrap_closest}
use cs144_labs.Reassembler.Intervals.{
  Interval, interval, merge_from, merge_interval, in_interval, covers, total,
}
use cs144_labs.Reassembler.Intervals.Search.{
  Merged, merge_interval-Merged, merge_interval-eq-merge_from,
}
use cs144_labs.Reassembler.Buffer
use cs144_labs.Reassembler.Buffer.{UnAssembleBuffer}
use cs144_labs.Reassembler.Buffer.Holding.{IsPart}
use cs144_labs.Reassembler.Buffer.Pushing.{Popped, push_substring-Popped}
use cs144_labs.Reassembler.{StreamReassembler, new, push_substring}
use cs144_labs.Reassembler.Beyond.{push_substring_beyond}
use cs144_labs.Reassembler.Assembly.{Assembles}
use cs144_labs.Reassembler.Window.{Pushed, push_substring-Pushed}
use cs144_labs.Reassembler.Delivery.{
  new-Assembles, Run, starts, arrives, reads, read_output, Delivered, Run-Delivered,
}

abbrev hello : List ℕ
hello = 104 ∷ 101 ∷ 108 ∷ 108 ∷ 111 ∷ []

-- The stream that begins with these bytes.
abbrev hello_stream : ℕ → ℕ
hello_stream j = get_or hello j 0

abbrev small_stream : ByteStream
small_stream = ByteStream.new 4

small_stream-IsValid : Validity.IsValid small_stream
small_stream-IsValid = Validity.new-IsValid 4 (omega arith) (omega arith)

abbrev some_calls : List Call
some_calls = writes hello ∷ Call.reads 3 ∷ writes hello ∷ pops 2 ∷ []

run_fifo_example :
    (contents small_stream ++ all_accepted small_stream some_calls
      ≡ all_removed small_stream some_calls ++ contents (run small_stream some_calls))
    × Validity.IsValid (run small_stream some_calls)
    × (length (contents (run small_stream some_calls)) ≤ small_stream.capacity)
run_fifo_example = run_fifo some_calls small_stream-IsValid

wrapped_17 : wrap 2 15 ≡ 17
unfolding wrap
wrapped_17 = refl

unwrap_closest_example :
    (wrap (unwrap 17 15 (2 ^ 40)) 15 ≡ 17) × (gap (unwrap 17 15 (2 ^ 40)) (2 ^ 40) ≤ gap 2 (2 ^ 40))
unwrap_closest_example =
    unwrap_closest 17 15 (2 ^ 40) 2 (omega arith) (omega arith) (omega arith) wrapped_17

-- The map of [0, 2) and [6, 8).
abbrev two_intervals : List Interval
two_intervals = interval 0 2 ∷ interval 6 2 ∷ []

merge_interval-Merged_example :
    Merged 0 9 1 5 two_intervals (merge_interval 1 5 (total two_intervals) two_intervals)
merge_interval-Merged_example =
    merge_interval-Merged two_intervals 0 9 1 5 (omega arith)
      (omega arith, omega arith, (omega arith, omega arith, tt)) (omega arith, (omega arith, tt))
      (omega arith) (omega arith) (omega arith)

merge_interval-eq-merge_from_example :
    merge_interval 1 5 4 two_intervals ≡ merge_from 1 5 4 two_intervals
merge_interval-eq-merge_from_example =
    merge_interval-eq-merge_from two_intervals 0 1 5 4
      (omega arith, omega arith, (omega arith, omega arith, tt)) (omega arith)

hello-IsPart : (n : ℕ) → IsPart hello_stream (drop n hello) n
hello-IsPart n k h = get_or-drop 0 n hello k

abbrev small_reassembler : StreamReassembler
small_reassembler = new 8

small-Assembles : Assembles hello_stream small_reassembler
small-Assembles = new-Assembles hello_stream 8 (omega arith) (omega arith)

push_substring-Popped_example :
    (out : UnAssembleBuffer × List ℕ) × (Buffer.push_substring small_reassembler.buffer
        (drop 2 hello)
        2
        small_reassembler.output.bytes_written
      ≡ some out)
    × Popped hello_stream small_reassembler.output.bytes_written
        (λ j.
          in_interval 2 (length (drop 2 hello)) j || covers small_reassembler.buffer.index_map j)
        out
unfolding new
push_substring-Popped_example =
    push_substring-Popped hello_stream small_reassembler.output.bytes_written
      small_reassembler.buffer (drop 2 hello) 2 small-Assembles.holds (omega arith) (hello-IsPart 2)
      (omega arith) (omega arith) (omega arith)

push_substring_beyond_example :
    (9 ≡ small_reassembler.output.bytes_written + small_reassembler.capacity
      → (r' : StreamReassembler) × (push_substring small_reassembler hello 9 true ≡ some r')
        × (r'.buffer ≡ small_reassembler.buffer)
        × (r'.output.bytes_written ≡ small_reassembler.output.bytes_written))
    × (small_reassembler.output.bytes_written + small_reassembler.capacity < 9
        → push_substring small_reassembler hello 9 true ≡ none)
push_substring_beyond_example =
    push_substring_beyond hello_stream small_reassembler hello 9 true small-Assembles (omega arith)
      (omega arith)

push_substring-Pushed_example :
    (r' : StreamReassembler) × (push_substring small_reassembler (drop 2 hello) 2 true ≡ some r')
    × Pushed hello_stream small_reassembler 2 (length (drop 2 hello)) true r'
unfolding new
push_substring-Pushed_example =
    push_substring-Pushed hello_stream small_reassembler (drop 2 hello) 2 true small-Assembles
      (omega arith) (hello-IsPart 2) (omega arith) (omega arith)

-- A reassembler that has written all of `hello`.
after_hello :
    (r : StreamReassembler) × (push_substring small_reassembler hello 0 true ≡ some r)
    × Pushed hello_stream small_reassembler 0 5 true r
unfolding new
after_hello =
    push_substring-Pushed hello_stream small_reassembler hello 0 true small-Assembles (omega arith)
      (hello-IsPart 0) (omega arith) (omega arith)

hello-Run :
    Run hello_stream 8
      ([] ++ (ByteStream.read after_hello.0.output 3).1)
      (read_output after_hello.0 3)
unfolding new
hello-Run =
    reads 3
      (arrives hello 0 true (starts refl) (hello-IsPart 0) (omega arith) (omega arith)
        after_hello.1)
      refl refl

Run-Delivered_example :
    Delivered hello_stream
      ([] ++ (ByteStream.read after_hello.0.output 3).1)
      (read_output after_hello.0 3)
Run-Delivered_example = Run-Delivered (omega arith) (omega arith) hello-Run
