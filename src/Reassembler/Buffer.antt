-- ===== src/Reassembler/Buffer.antt =====
-- `UnAssembleBuffer` of libsponge/stream_reassembler.hh and stream_reassembler.cc: the bytes that
-- wait for earlier ones, in a cyclic buffer, and the map of the intervals that it holds.
pub mod Holding
pub mod Pushing
use cs144_labs.Prelude.{
  ℕ, ◌%◌, Option, none, some, List, [], ◌∷◌, ◌&&◌, Bool, if◌then◌else◌, leb, ltb, ◌==◌, length,
  replicate, add64, sub64,
}
use cs144_labs.Cyclic.{ring_write, ring_read}
use cs144_labs.Reassembler.Intervals.{Interval, merge_interval}

pub record UnAssembleBuffer : Type 0 where
  pub buffer : List ℕ
  pub capacity : ℕ
  pub index_map : List Interval
  pub used_size : ℕ
  pub start_pos : ℕ

unfoldable pub new : ℕ → UnAssembleBuffer
new capacity = record {
  buffer = replicate capacity 0;
  capacity = capacity;
  index_map = [];
  used_size = 0;
  start_pos = 0;
}

-- What `push_substring` does after the interval is recorded: it takes the first entry out of the map
-- and the bytes of it out of the buffer, if the entry begins at `start_index`.
unfoldable pub pop_first : UnAssembleBuffer → List Interval → ℕ → UnAssembleBuffer × List ℕ
pop_first b [] start_index = (b, [])
pop_first b (x ∷ rest) start_index =
    if x.first == start_index
    then (
      record b {
        index_map = rest;
        used_size = sub64 b.used_size x.second;
        start_pos = add64 b.start_pos x.second % b.capacity;
      },
      ring_read b.buffer b.capacity b.start_pos x.second,
    )
    else (b, [])

-- The buffer after the copy of the substring and the merge of its interval.
unfoldable pub store_substring : UnAssembleBuffer → List ℕ → ℕ → ℕ → UnAssembleBuffer
store_substring b bytes index start_index =
    let pos = sub64 (add64 b.start_pos index) start_index % b.capacity in
    let merged = merge_interval index (length bytes) b.used_size b.index_map in
    record b {
      buffer =
          ring_write (leb (add64 pos (length bytes)) b.capacity) b.buffer b.capacity pos bytes
            (length bytes);
      index_map = merged.0;
      used_size = merged.1;
    }

-- `none` is a failed assertion: the substring begins before `start_index`, or a capacity after it.
unfoldable pub push_substring :
    UnAssembleBuffer → List ℕ → ℕ → ℕ → Option (UnAssembleBuffer × List ℕ)
unfolding pop_first store_substring
push_substring b bytes index start_index =
    let stored = store_substring b bytes index start_index in
    if leb start_index index && ltb (sub64 index start_index) b.capacity
    then some (pop_first stored stored.index_map start_index)
    else none

abbrev pub empty : UnAssembleBuffer → Bool
empty b = b.used_size == 0
