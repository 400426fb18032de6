-- ===== src/ByteStream.antt =====
-- libsponge/byte_stream.hh and byte_stream.cc: a bounded byte stream over a cyclic buffer.
-- A method that changes the stream returns the new stream. `capacity` is `buffer_.capacity()`, which
-- is the size that the constructor gives the vector. Sizes and counters are `size_t`.
pub mod Validity
pub mod Refinement
pub mod Queue
pub mod History
use cs144_labs.Prelude.{
  ℕ, ◌+◌, ◌%◌, min, Bool, true, false, ◌&&◌, ◌||◌, List, if◌then◌else◌, ltb, leb, ◌==◌, length,
  replicate, add64, sub64,
}
use cs144_labs.Cyclic.{ring_write, ring_read}

pub record ByteStream : Type 0 where
  pub buffer : List ℕ
  pub capacity : ℕ
  pub used_size : ℕ
  pub start_pos : ℕ
  pub bytes_read : ℕ
  pub bytes_written : ℕ
  pub input_ended : Bool
  pub error : Bool

unfoldable pub new : ℕ → ByteStream
new capacity = record {
  buffer = replicate capacity 0;
  capacity = capacity;
  used_size = 0;
  start_pos = 0;
  bytes_read = 0;
  bytes_written = 0;
  input_ended = false;
  error = false;
}

abbrev pub remaining_capacity : ByteStream → ℕ
remaining_capacity s = sub64 s.capacity s.used_size

abbrev pub end_pos : ByteStream → ℕ
end_pos s = add64 s.start_pos s.used_size % s.capacity

-- The two `memcpy` branches are `ring_write`, chosen by the test of the code.
unfoldable pub write : ByteStream → List ℕ → ByteStream × ℕ
write s bytes =
    let write_size = min (length bytes) (remaining_capacity s) in
    let end = end_pos s in
    let fits = ltb end s.start_pos || leb (add64 end write_size) s.capacity in
    if write_size == 0 then (s, 0) else (
      record s {
        buffer = ring_write fits s.buffer s.capacity end bytes write_size;
        used_size = add64 s.used_size write_size;
        bytes_written = add64 s.bytes_written write_size;
      },
      write_size,
    )

unfoldable pub peek_output : ByteStream → ℕ → List ℕ
peek_output s len = ring_read s.buffer s.capacity s.start_pos (min len s.used_size)

unfoldable pub pop_output : ByteStream → ℕ → ByteStream
pop_output s len =
    let pop_size = min len s.used_size in
    record s {
      start_pos = add64 s.start_pos pop_size % s.capacity;
      used_size = sub64 s.used_size pop_size;
      bytes_read = add64 s.bytes_read pop_size;
    }

unfoldable pub read : ByteStream → ℕ → ByteStream × List ℕ
read s len = (pop_output s len, peek_output s len)

abbrev pub end_input : ByteStream → ByteStream
end_input s = record s { input_ended = true }

abbrev pub set_error : ByteStream → ByteStream
set_error s = record s { error = true }

abbrev pub buffer_size : ByteStream → ℕ
buffer_size s = s.used_size

abbrev pub buffer_empty : ByteStream → Bool
buffer_empty s = s.used_size == 0

abbrev pub eof : ByteStream → Bool
eof s = (s.used_size == 0) && s.input_ended
