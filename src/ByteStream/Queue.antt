-- ===== src/ByteStream/Queue.antt =====
-- The operations of a valid stream against the queue of the bytes that it holds.
use cs144_labs.Prelude.{
  take_all, take-append-drop, add64, ◌≤◌, ℕ, ◌+◌, ◌-◌, ◌%◌, ◌<◌, min, ◌≡◌, refl, sym, ap, ◌∙◌, List,
  ◌++◌, arith, ltb, if◌then◌else◌, length, get_or, take, drop, length-append, length-take,
  length-drop, length-tabulate, get_or-append, get_or-take, get_or-drop, get_or-tabulate, list_ext,
}
use cs144_labs.Cyclic.{byte_at}
use cs144_labs.Cyclic.Laws.{byte_at_later, ring_read_lem}
use cs144_labs.ByteStream.{ByteStream, write, peek_output, pop_output, read}
use cs144_labs.ByteStream.Validity.{IsValid, write-IsValid}
use cs144_labs.ByteStream.Refinement.{
  contents, length-contents, get_or-contents, byte_at-write, used_size-write,
}

capacity-write :
    (s : ByteStream) (bytes : List ℕ)
    → ((write s bytes).0.capacity ≡ s.capacity) × ((write s bytes).0.start_pos ≡ s.start_pos)
unfolding write
capacity-write s bytes = ground arith

count-write :
    {s : ByteStream} (bytes : List ℕ)
    → IsValid s
    → (write s bytes).1 ≡ min (length bytes) (s.capacity - s.used_size)
unfolding write
count-write {s} bytes v = ground arith

contents-write :
    {s : ByteStream} (bytes : List ℕ)
    → IsValid s
    → contents (write s bytes).0 ≡ contents s ++ take (s.capacity - s.used_size) bytes
contents-write {s} bytes v =
    list_ext 0 _ _ sizes (λ k h. entry k (omega (arith, length-contents (write s bytes).0)))
  where
    room : ℕ
    room = s.capacity - s.used_size

    sizes : length (contents (write s bytes).0) ≡ length (contents s ++ take room bytes)
    sizes = omega (
      arith,
      length-contents (write s bytes).0,
      length-append (contents s) (take room bytes),
      length-contents s,
      length-take room bytes,
      used_size-write bytes v,
    )

    entry :
        (k : ℕ)
        → k < (write s bytes).0.used_size
        → get_or (contents (write s bytes).0) k 0 ≡ get_or (contents s ++ take room bytes) k 0
    entry k h =
        let at : byte_at (write s bytes).0.buffer (write s bytes).0.capacity
              (write s bytes).0.start_pos k
            ≡ (if ltb k s.used_size
                then byte_at s.buffer s.capacity s.start_pos k
                else get_or bytes (k - s.used_size) 0) =
          rw ((capacity-write s bytes).0, (capacity-write s bytes).1) (byte_at-write bytes k v h) in
        ground (
          arith,
          get_or-contents (write s bytes).0 k h,
          at,
          get_or-append 0 (contents s) (take room bytes) k,
          length-contents s,
          get_or-contents s k,
          get_or-take 0 room bytes (k - s.used_size),
          used_size-write bytes v,
        )

-- `write` takes the longest prefix that fits, puts it behind what the stream holds, and returns its
-- length.
pub write_refines :
    {s : ByteStream} (bytes : List ℕ)
    → IsValid s
    → let room = s.capacity - length (contents s) in
      (contents (write s bytes).0 ≡ contents s ++ take room bytes)
      × ((write s bytes).1 ≡ length (take room bytes))
write_refines {s} bytes v = rw (length-contents s) (
  contents-write bytes v,
  omega (arith, count-write bytes v, length-take (s.capacity - s.used_size) bytes),
)

-- `peek_output` returns the next `len` bytes that the stream holds, or all of them if they are fewer.
pub peek_refines :
    {s : ByteStream} (len : ℕ) → IsValid s → peek_output s len ≡ take len (contents s)
unfolding peek_output
peek_refines {s} len v =
    ring_read_lem s.buffer s.capacity s.start_pos n v.storage v.small v.start_in (omega arith)
    ∙ list_ext 0 _ _
        (omega (
          arith,
          length-tabulate (byte_at s.buffer s.capacity s.start_pos) n,
          length-take len (contents s),
          length-contents s,
        ))
        λ k h. ground (
          arith,
          length-tabulate (byte_at s.buffer s.capacity s.start_pos) n,
          get_or-tabulate 0 (byte_at s.buffer s.capacity s.start_pos) n k,
          get_or-take 0 len (contents s) k,
          get_or-contents s k,
        )
  where
    n : ℕ
    n = min len s.used_size

pop_fields :
    {s : ByteStream} (len : ℕ)
    → IsValid s
    → let n = min len s.used_size in
      ((pop_output s len).used_size ≡ s.used_size - n)
      × ((pop_output s len).start_pos ≡ (s.start_pos + n) % s.capacity)
      × ((pop_output s len).buffer ≡ s.buffer)
      × ((pop_output s len).capacity ≡ s.capacity)
unfolding pop_output
pop_fields {s} len v = (omega arith, ap (λ t. t % s.capacity) (omega arith), refl, refl)

-- `pop_output` drops the next `len` bytes, or all of them if they are fewer.
pub pop_refines :
    {s : ByteStream} (len : ℕ) → IsValid s → contents (pop_output s len) ≡ drop len (contents s)
pop_refines {s} len v =
    list_ext 0 _ _
      (omega (
        arith,
        length-contents (pop_output s len),
        length-drop len (contents s),
        length-contents s,
        (pop_fields len v).0,
      ))
      λ k h. entry k (omega (arith, length-contents (pop_output s len), (pop_fields len v).0))
  where
    n : ℕ
    n = min len s.used_size

    entry :
        (k : ℕ)
        → k < s.used_size - n
        → get_or (contents (pop_output s len)) k 0 ≡ get_or (drop len (contents s)) k 0
    entry k h =
        let f = pop_fields len v in
        let here : byte_at (pop_output s len).buffer (pop_output s len).capacity
              (pop_output s len).start_pos k
            ≡ byte_at s.buffer s.capacity s.start_pos (n + k) =
          rw (f.1, f.2, f.3) (byte_at_later s.buffer s.capacity s.start_pos n k) in
        get_or-contents (pop_output s len) k (omega (arith, f.0))
        ∙ here
        ∙ sym (get_or-contents s (n + k) (omega arith))
        ∙ ap (λ i. get_or (contents s) i 0) (omega arith)
        ∙ sym (get_or-drop 0 len (contents s) k)

-- A write that fits takes every byte, and changes nothing but the buffer and its counters.
pub record Written (s : ByteStream) (bytes : List ℕ) (s' : ByteStream) : Type 0 where
  pub valid : IsValid s'
  pub stored : contents s' ≡ contents s ++ bytes
  pub used_more : s'.used_size ≡ s.used_size + length bytes
  pub written_more : s'.bytes_written ≡ add64 s.bytes_written (length bytes)
  pub read_same : s'.bytes_read ≡ s.bytes_read
  pub capacity_same : s'.capacity ≡ s.capacity
  pub ended_same : s'.input_ended ≡ s.input_ended
  pub error_same : s'.error ≡ s.error

pub write-Written :
    {s : ByteStream} (bytes : List ℕ)
    → IsValid s
    → s.used_size + length bytes ≤ s.capacity
    → Written s bytes (write s bytes).0
write-Written {s} bytes v h = record {
  valid = write-IsValid bytes v;
  stored = rw (take_all (s.capacity - s.used_size) bytes (omega arith)) at (contents-write bytes v);
  used_more = omega (arith, used_size-write bytes v);
  written_more = unfold write in ground arith;
  read_same = unfold write in ground arith;
  capacity_same = (capacity-write s bytes).0;
  ended_same = unfold write in ground arith;
  error_same = unfold write in ground arith;
}

-- `read` returns the next `len` bytes that the stream holds, or all of them if they are fewer, and leaves
-- the others: together the two are what the stream held.
pub read_refines :
    {s : ByteStream} (len : ℕ)
    → IsValid s
    → ((read s len).1 ≡ take len (contents s))
      × (contents (read s len).0 ≡ drop len (contents s))
      × ((read s len).1 ++ contents (read s len).0 ≡ contents s)
unfolding read
read_refines {s} len v =
    let shown = peek_refines len v in
    let left = pop_refines len v in
    (shown, left, rw (shown, left) (take-append-drop len (contents s)))
