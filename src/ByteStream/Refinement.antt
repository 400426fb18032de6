-- ===== src/ByteStream/Refinement.antt =====
-- A valid stream behaves as the queue of the bytes that it holds.
use cs144_labs.Prelude.{
  ℕ, ◌+◌, ◌-◌, ◌%◌, ◌≤◌, ◌<◌, min, ◌≡◌, ap, ◌∙◌, Bool, true, false, ◌||◌, List, arith, ltb, leb,
  if◌then◌else◌, length, get_or, length-tabulate, get_or-tabulate, add64, mod_once,
}
use cs144_labs.Cyclic.{window, byte_at, ring_write}
use cs144_labs.Cyclic.Laws.{get_or-ring_write, offset}
use cs144_labs.ByteStream.{ByteStream, write, remaining_capacity, end_pos}
use cs144_labs.ByteStream.Validity.{IsValid}

-- The bytes that the stream holds, oldest first.
abbrev pub contents : ByteStream → List ℕ
contents s = window s.buffer s.capacity s.start_pos s.used_size

pub length-contents : (s : ByteStream) → length (contents s) ≡ s.used_size
length-contents s = length-tabulate (byte_at s.buffer s.capacity s.start_pos) s.used_size

pub get_or-contents :
    (s : ByteStream) (k : ℕ)
    → k < s.used_size
    → get_or (contents s) k 0 ≡ byte_at s.buffer s.capacity s.start_pos k
get_or-contents s k h = get_or-tabulate 0 (byte_at s.buffer s.capacity s.start_pos) s.used_size k h

pub used_size-write :
    {s : ByteStream} (bytes : List ℕ)
    → IsValid s
    → (write s bytes).0.used_size ≡ s.used_size + min (length bytes) (s.capacity - s.used_size)
unfolding write
used_size-write {s} bytes v = ground arith

-- Going round from `start`, a place before the end position is at least `n` after it, and a later
-- one as far after it as expected.
offset_from_end :
    (cap start used n k : ℕ)
    → start < cap
    → used + n ≤ cap
    → k < used + n
    → (k < used → n ≤ offset cap ((start + used) % cap) ((start + k) % cap))
      × (used ≤ k → offset cap ((start + used) % cap) ((start + k) % cap) ≡ k - used)
offset_from_end cap start used n k h1 h2 h3 =
    let e = mod_once (start + used) cap in
    let i = mod_once (start + k) cap in
    (
      λ h. ground (arith, e (omega arith), i (omega arith)),
      λ h. ground (arith, e (omega arith), i (omega arith)),
    )

abbrev fits : ByteStream → ℕ → Bool
fits s n = ltb (end_pos s) s.start_pos || leb (add64 (end_pos s) n) s.capacity

-- The code's test for a copy in one piece is exact.
fits_lem :
    (s : ByteStream) (n : ℕ)
    → IsValid s
    → 0 < n
    → s.used_size + n ≤ s.capacity
    → (fits s n ≡ true → end_pos s + n ≤ s.capacity)
      × (fits s n ≡ false → s.capacity < end_pos s + n)
fits_lem s n v h1 h2 =
    let e = mod_once (s.start_pos + s.used_size) s.capacity (omega arith) in
    (λ h. ground (arith, e), λ h. ground (arith, e))

module _ (s : ByteStream) (bytes : List ℕ) (n k : ℕ) (v : IsValid s) (some_room : 0 < n) where
  end_pos_lem : end_pos s ≡ (s.start_pos + s.used_size) % s.capacity
  end_pos_lem = ap (λ t. t % s.capacity) (omega arith)

  -- What the copy of a write leaves `k` places after the start.
  byte_at-ring_write :
      n ≤ length bytes
      → s.used_size + n ≤ s.capacity
      → k < s.used_size + n
      → byte_at
          (ring_write (fits s n) s.buffer s.capacity (end_pos s) bytes n)
          s.capacity
          s.start_pos
          k
        ≡ (if ltb k s.used_size
            then byte_at s.buffer s.capacity s.start_pos k
            else get_or bytes (k - s.used_size) 0)
  byte_at-ring_write h1 h2 h3 =
      get_or-ring_write (fits s n) s.buffer s.capacity (end_pos s) bytes n
        ((s.start_pos + k) % s.capacity) v.storage v.small
        (omega (arith, mod_once (s.start_pos + s.used_size) s.capacity)) (omega arith) h1
        (fits_lem s n v some_room h2).0 (fits_lem s n v some_room h2).1
        (omega (arith, mod_once (s.start_pos + k) s.capacity))
      ∙ rw end_pos_lem
          (pick (offset_from_end s.capacity s.start_pos s.used_size n k v.start_in h2 h3))
    where
      pick :
          (k < s.used_size
              → n
                ≤ offset s.capacity
                    ((s.start_pos + s.used_size) % s.capacity)
                    ((s.start_pos + k) % s.capacity))
            × (s.used_size ≤ k
                → offset s.capacity
                    ((s.start_pos + s.used_size) % s.capacity)
                    ((s.start_pos + k) % s.capacity)
                  ≡ k - s.used_size)
          → (if ltb
                (offset s.capacity
                  ((s.start_pos + s.used_size) % s.capacity)
                  ((s.start_pos + k) % s.capacity))
                n
              then get_or bytes
                  (offset s.capacity
                    ((s.start_pos + s.used_size) % s.capacity)
                    ((s.start_pos + k) % s.capacity))
                  0
              else get_or s.buffer ((s.start_pos + k) % s.capacity) 0)
            ≡ (if ltb k s.used_size
                then byte_at s.buffer s.capacity s.start_pos k
                else get_or bytes (k - s.used_size) 0)
      pick o = ground (arith, o.0, o.1)

pub byte_at-write :
    {s : ByteStream} (bytes : List ℕ) (k : ℕ)
    → IsValid s
    → k < (write s bytes).0.used_size
    → byte_at (write s bytes).0.buffer s.capacity s.start_pos k ≡ (
        if ltb k s.used_size
        then byte_at s.buffer s.capacity s.start_pos k
        else get_or bytes (k - s.used_size) 0)
unfolding write
byte_at-write {s} bytes k v h =
    let n = min (length bytes) (remaining_capacity s) in
    let at = byte_at-ring_write s bytes n k v in ground (arith, at)
