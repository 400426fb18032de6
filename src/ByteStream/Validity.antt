-- ===== src/ByteStream/Validity.antt =====
-- The representation invariant of `ByteStream`.
use cs144_labs.Prelude.{
  ℕ, ◌+◌, ◌^◌, ◌≤◌, ◌<◌, min, ◌≡◌, List, arith, length, length-replicate, add64, mod_once,
}
use cs144_labs.Cyclic.Laws.{length-ring_write}
use cs144_labs.ByteStream.{ByteStream, new, write, pop_output, read, end_input, set_error}

pub record IsValid (s : ByteStream) : Type 0 where
  pub storage : length s.buffer ≡ s.capacity
  pub room : 0 < s.capacity
  pub small : s.capacity < 2 ^ 63
  pub start_in : s.start_pos < s.capacity
  pub used_in : s.used_size ≤ s.capacity
  pub written_word : s.bytes_written < 2 ^ 64
  pub counted : s.bytes_written ≡ add64 s.bytes_read s.used_size

-- A new stream of positive capacity is valid.
pub new-IsValid : (capacity : ℕ) → 0 < capacity → capacity < 2 ^ 63 → IsValid (new capacity)
unfolding new
new-IsValid capacity h k = ground (arith, length-replicate {A = ℕ} capacity 0)

-- `write` keeps the invariant.
pub write-IsValid : {s : ByteStream} (bytes : List ℕ) → IsValid s → IsValid (write s bytes).0
unfolding write
write-IsValid {s} bytes v = grind (arith, length-ring_write)

pub pop_output-IsValid : {s : ByteStream} (len : ℕ) → IsValid s → IsValid (pop_output s len)
unfolding pop_output
pop_output-IsValid {s} len v =
    ground (arith, mod_once (s.start_pos + min len s.used_size) s.capacity)

pub read-IsValid : {s : ByteStream} (len : ℕ) → IsValid s → IsValid (read s len).0
unfolding read
read-IsValid len v = pop_output-IsValid len v

pub end_input-IsValid : {s : ByteStream} → IsValid s → IsValid (end_input s)
end_input-IsValid v = omega arith

pub set_error-IsValid : {s : ByteStream} → IsValid s → IsValid (set_error s)
set_error-IsValid v = omega arith
