-- ===== src/Reassembler/Buffer/Holding.antt =====
-- What an `UnAssembleBuffer` holds: bytes of one stream, at the indices that its map covers.
use cs144_labs.Prelude.{
  ℕ, ◌+◌, ◌-◌, ◌%◌, ◌^◌, ◌≤◌, ◌<◌, ◌≡◌, ◌⊎◌, inl, inr, ap, ◌∙◌, true, false, ◌&&◌, ◌||◌, List,
  arith, ltb, leb, if◌then◌else◌, Bool-cases, length, get_or, add64, sub64, mod_once,
}
use cs144_labs.Cyclic.{ring_write, byte_at}
use cs144_labs.Cyclic.Laws.{get_or-ring_write, length-ring_write, offset, if_offset}
use cs144_labs.Reassembler.Intervals.{Interval, merge_interval, covers, total, in_interval}
use cs144_labs.Reassembler.Intervals.Apart.{Apart, EndsBy, covers_early, covers_late}
use cs144_labs.Reassembler.Intervals.Search.{Merged, merge_interval-Merged}
use cs144_labs.Reassembler.Buffer.{UnAssembleBuffer, store_substring}

-- The buffer holds bytes of `stream`, and waits for the byte at `start`.
pub record Holds (stream : ℕ → ℕ) (start : ℕ) (b : UnAssembleBuffer) : Type 0 where
  pub storage : length b.buffer ≡ b.capacity
  pub room : 0 < b.capacity
  pub small : b.capacity < 2 ^ 63
  pub start_in : b.start_pos < b.capacity
  pub apart : Apart start b.index_map
  pub ends : EndsBy (start + b.capacity) b.index_map
  pub counted : b.used_size ≡ total b.index_map
  pub bytes :
      (j : ℕ)
      → covers b.index_map j ≡ true
      → byte_at b.buffer b.capacity b.start_pos (j - start) ≡ stream j

-- The substring is the stream's, from `index` on.
abbrev pub IsPart : (ℕ → ℕ) → List ℕ → ℕ → Type 0
IsPart stream bytes index = (k : ℕ) → k < length bytes → get_or bytes k 0 ≡ stream (index + k)

-- Going round from `start`, the place of index `j` against the place of `i`.
offset_between :
    (cap start i j n : ℕ)
    → start < cap
    → i + n ≤ cap
    → j < cap
    → (leb i j && ltb j (i + n) ≡ true → offset cap ((start + i) % cap) ((start + j) % cap) ≡ j - i)
      × (leb i j && ltb j (i + n) ≡ false → n ≤ offset cap ((start + i) % cap) ((start + j) % cap))
offset_between cap start i j n h1 h2 h3 =
    let e = mod_once (start + i) cap in
    let f = mod_once (start + j) cap in
    (
      λ h. ground (arith, e (omega arith), f (omega arith)),
      λ h. ground (arith, e (omega arith), f (omega arith)),
    )

-- A covered index lies in the window of the buffer.
covers_window :
    (lo hi : ℕ) (xs : List Interval) (j : ℕ)
    → Apart lo xs
    → EndsBy hi xs
    → covers xs j ≡ true
    → (lo ≤ j) × (j < hi)
covers_window lo hi xs j a e c =
    (ground (arith, covers_early lo xs j a), ground (arith, covers_late hi xs j e))

module _ (stream : ℕ → ℕ) (start : ℕ) (b : UnAssembleBuffer) (bytes : List ℕ) (index : ℕ)
    (v : Holds stream start b) (word : start + b.capacity < 2 ^ 64)
    (part : IsPart stream bytes index) (some_bytes : 0 < length bytes) (after_start : start ≤ index)
    (in_room : index + length bytes ≤ start + b.capacity) where
  pos_lem :
      sub64 (add64 b.start_pos index) start % b.capacity
      ≡ (b.start_pos + (index - start)) % b.capacity
  pos_lem = ap (λ t. t % b.capacity) (omega arith)

  merged :
      Merged start
        (start + b.capacity)
        index
        (length bytes)
        b.index_map
        (merge_interval index (length bytes) b.used_size b.index_map)
  merged = rw v.counted (
      merge_interval-Merged b.index_map start (start + b.capacity) index (length bytes) word v.apart
        v.ends after_start some_bytes in_room)

  -- The byte that the copy leaves for index `start + j`.
  stored_byte :
      (pos : ℕ)
      → pos ≡ (b.start_pos + (index - start)) % b.capacity
      → (j : ℕ) → j < b.capacity
      → byte_at
          (ring_write
            (leb (add64 pos (length bytes)) b.capacity)
            b.buffer
            b.capacity
            pos
            bytes
            (length bytes))
          b.capacity
          b.start_pos
          j
        ≡ (if leb (index - start) j && ltb j (index - start + length bytes)
            then get_or bytes (j - (index - start)) 0
            else byte_at b.buffer b.capacity b.start_pos j)
  stored_byte pos e j hj =
      let n = length bytes in
      let cap = b.capacity in
      let inside : pos < cap = omega (arith, mod_once (b.start_pos + (index - start)) cap) in
      get_or-ring_write (leb (add64 pos n) cap) b.buffer cap pos bytes n ((b.start_pos + j) % cap)
        v.storage v.small inside (omega arith) (omega arith) (λ h. ground arith) (λ h. ground arith)
        (omega (arith, mod_once (b.start_pos + j) cap))
      ∙ rw e
          (choose (offset_between cap b.start_pos (index - start) j n v.start_in (omega arith) hj))
    where
      choose :
          (leb (index - start) j && ltb j (index - start + length bytes) ≡ true
              → offset b.capacity
                  ((b.start_pos + (index - start)) % b.capacity)
                  ((b.start_pos + j) % b.capacity)
                ≡ j - (index - start))
            × (leb (index - start) j && ltb j (index - start + length bytes) ≡ false
                → length bytes
                  ≤ offset b.capacity
                      ((b.start_pos + (index - start)) % b.capacity)
                      ((b.start_pos + j) % b.capacity))
          → (if ltb
                (offset b.capacity
                  ((b.start_pos + (index - start)) % b.capacity)
                  ((b.start_pos + j) % b.capacity))
                (length bytes)
              then get_or bytes
                  (offset b.capacity
                    ((b.start_pos + (index - start)) % b.capacity)
                    ((b.start_pos + j) % b.capacity))
                  0
              else get_or b.buffer ((b.start_pos + j) % b.capacity) 0)
            ≡ (if leb (index - start) j && ltb j (index - start + length bytes)
                then get_or bytes (j - (index - start)) 0
                else byte_at b.buffer b.capacity b.start_pos j)
      choose o =
          if_offset (leb (index - start) j && ltb j (index - start + length bytes)) _
            (j - (index - start)) (length bytes) (λ k. get_or bytes k 0) _ o.0 (λ t. ground arith)
            o.1

  stored_stream :
      (j : ℕ)
      → covers (merge_interval index (length bytes) b.used_size b.index_map).0 j ≡ true
      → byte_at (store_substring b bytes index start).buffer b.capacity b.start_pos (j - start)
        ≡ stream j
  unfolding store_substring
  stored_stream j c =
      let w = covers_window start (start + b.capacity) _ j merged.apart merged.ends c in
      stored_byte _ pos_lem (j - start) (omega arith)
      ∙ from_old_or_new (Bool-cases (in_interval index (length bytes) j)) w
    where
      from_old_or_new :
          (in_interval index (length bytes) j ≡ true) ⊎ (in_interval index (length bytes) j ≡ false)
          → (start ≤ j) × (j < start + b.capacity)
          → (if leb (index - start) (j - start) && ltb (j - start) (index - start + length bytes)
              then get_or bytes (j - start - (index - start)) 0
              else byte_at b.buffer b.capacity b.start_pos (j - start))
            ≡ stream j
      from_old_or_new (inl t) w =
          let e : leb (index - start) (j - start) && ltb (j - start) (index - start + length bytes)
              ≡ true =
            ground arith in
          let k : j - start - (index - start) ≡ j - index = ground arith in
          rw (e, k) (part (j - index) (ground arith) ∙ ap stream (ground arith))
      from_old_or_new (inr t) w =
          let e : leb (index - start) (j - start) && ltb (j - start) (index - start + length bytes)
              ≡ false =
            ground arith in
          rw e (v.bytes j (rw (merged.cover j, t) at c))

  -- A substring inside the window is stored: the buffer still holds bytes of the stream.
  pub store_substring-Holds : Holds stream start (store_substring b bytes index start)
  store_substring-Holds = record {
    storage =
        unfold store_substring in
        length-ring_write
          (leb (add64 (sub64 (add64 b.start_pos index) start % b.capacity) (length bytes))
            b.capacity)
          b.buffer b.capacity (sub64 (add64 b.start_pos index) start % b.capacity) bytes
          (length bytes)
        ∙ v.storage;
    room = unfold store_substring in v.room;
    small = unfold store_substring in v.small;
    start_in = unfold store_substring in v.start_in;
    apart = unfold store_substring in merged.apart;
    ends = unfold store_substring in merged.ends;
    counted = unfold store_substring in merged.sum;
    bytes = λ j c. unfold store_substring in stored_stream j c;
  }

  -- It covers what it covered, and the substring.
  pub covers-store_substring :
      (j : ℕ)
      → covers (store_substring b bytes index start).index_map j
        ≡ (in_interval index (length bytes) j || covers b.index_map j)
  unfolding store_substring
  covers-store_substring j = merged.cover j
