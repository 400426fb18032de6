-- ===== src/Reassembler/Assembly.antt =====
-- The invariant of `StreamReassembler`, and the write of what the buffer pops.
use cs144_labs.Prelude.{
  ℕ, ◌+◌, ◌-◌, ◌≤◌, ◌<◌, ◌≡◌, refl, sym, Bool, true, false, List, [], ◌∷◌, ◌++◌, arith, length,
}
use mathlib.Core.List.{append-nil}
use cs144_labs.ByteStream.{ByteStream}
use cs144_labs.ByteStream.Validity
use cs144_labs.ByteStream.Refinement.{contents}
use cs144_labs.ByteStream.Queue.{Written, write-Written}
use cs144_labs.Reassembler.{StreamReassembler, write_popped}
use cs144_labs.Reassembler.Intervals.{covers}
use cs144_labs.Reassembler.Intervals.Apart.{EndsBy}
use cs144_labs.Reassembler.Buffer.Pushing.{stretch}
use cs144_labs.Reassembler.Buffer.Holding.{Holds}

-- How many more bytes the output can take: the window that a receiver advertises.
abbrev pub room : StreamReassembler → ℕ
room r = r.capacity - r.output.used_size

-- The reassembler has seen bytes of `stream` only. It waits for the first byte that is not written,
-- and holds nothing beyond the room of the output.
pub record Assembles (stream : ℕ → ℕ) (r : StreamReassembler) : Type 0 where
  pub output_valid : Validity.IsValid r.output
  pub holds : Holds stream r.output.bytes_written r.buffer
  pub same_output : r.output.capacity ≡ r.capacity
  pub same_buffer : r.buffer.capacity ≡ r.capacity
  pub waiting : covers r.buffer.index_map r.output.bytes_written ≡ false
  pub within : EndsBy (r.output.bytes_written + room r) r.buffer.index_map

-- What is popped is written whole, if there is room for it.
pub write_popped-Written :
    {s : ByteStream} (popped : List ℕ)
    → Validity.IsValid s
    → s.used_size + length popped ≤ s.capacity
    → Written s popped (write_popped s popped)
unfolding write_popped
write_popped-Written {s} [] v h = record {
  valid = v;
  stored = sym (append-nil (contents s));
  used_more = omega arith;
  written_more = omega arith;
  read_same = refl;
  capacity_same = refl;
  ended_same = refl;
  error_same = refl;
}
write_popped-Written (x ∷ xs) v h = write-Written (x ∷ xs) v h

-- What a call has done: it wrote the next bytes of the stream, as many as are there without a gap,
-- and it holds the rest of what was covered.
pub record Assembled (stream : ℕ → ℕ) (r : StreamReassembler) (covered : ℕ → Bool)
    (r' : StreamReassembler) : Type 0 where
  pub count : ℕ
  pub assembles : Assembles stream r'
  pub capacity_same : r'.capacity ≡ r.capacity
  pub written : r'.output.bytes_written ≡ r.output.bytes_written + count
  pub delivered :
      contents r'.output ≡ contents r.output ++ stretch stream r.output.bytes_written count
  pub used_more : r'.output.used_size ≡ r.output.used_size + count
  pub no_gap :
      (j : ℕ) → r.output.bytes_written ≤ j → j < r.output.bytes_written + count → covered j ≡ true
  pub stops : covered (r.output.bytes_written + count) ≡ false
  pub keeps :
      (j : ℕ) → r.output.bytes_written + count ≤ j → covers r'.buffer.index_map j ≡ covered j
  pub error_same : r'.output.error ≡ r.output.error
