-- ===== src/Reassembler/Beyond.antt =====
-- Substrings that begin a capacity or more after the bytes written, where the cut of
-- `StreamReassembler::push_substring` leaves nothing or wraps below zero.
use cs144_labs.Prelude.{
  ℕ, ◌+◌, ◌^◌, ◌≤◌, ◌<◌, ◌≡◌, inr, refl, ap, ◌∙◌, Bool, none, some, List, [], ◌∷◌, arith, ltb, true,
  le→ltb, if_false, if◌then◌else◌, length, add64, sub64,
}
use cs144_labs.Reassembler.{
  StreamReassembler, View, skip_written, cut_to_capacity, feed, end_at_eof, push_view,
  push_substring,
}
use cs144_labs.Reassembler.Buffer
use cs144_labs.Reassembler.Buffer.{UnAssembleBuffer}
use cs144_labs.Reassembler.Buffer.Pushing.{push_substring_asserts}
use cs144_labs.Reassembler.Assembly.{Assembles}

-- The part of the substring that is kept.
kept : StreamReassembler → List ℕ → ℕ → View
kept r bytes index =
    cut_to_capacity r.capacity r.output.bytes_written
      (skip_written r.output.bytes_written bytes index)

push_kept :
    (r : StreamReassembler) (bytes : List ℕ) (index : ℕ) (eof : Bool)
    → r.output.bytes_written ≤ index
    → index + length bytes < 2 ^ 64
    → push_substring r bytes index eof ≡ push_view r (kept r bytes index) eof
unfolding push_substring kept
push_kept r bytes index eof h k =
    if_false _ _ (le→ltb (add64 index (length bytes)) r.output.bytes_written (omega arith))

unskipped :
    (bw : ℕ) (bytes : List ℕ) (index : ℕ)
    → bw ≤ index
    → skip_written bw bytes index ≡ record { sv = bytes; index = index }
unfolding skip_written
unskipped bw bytes index h = if_false _ _ (le→ltb index bw h)

-- A capacity further on, nothing is left.
cut_whole :
    (capacity bw : ℕ) (bytes : List ℕ) (index : ℕ)
    → capacity < 2 ^ 63
    → index < 2 ^ 64
    → index ≡ bw + capacity
    → cut_to_capacity capacity bw (record { sv = bytes; index = index })
      ≡ record { sv = []; index = index }
unfolding cut_to_capacity
cut_whole capacity bw [] index c w e =
    let none_left : sub64 capacity (sub64 index bw) ≡ 0 = omega arith in rw none_left refl
cut_whole capacity bw (x ∷ xs) index c w e =
    let none_left : sub64 capacity (sub64 index bw) ≡ 0 = omega arith in
    let cut : ltb 0 (length (x ∷ xs)) ≡ true = ground arith in rw (none_left, cut) refl

-- Still further on, the difference wraps and nothing is cut.
cut_none :
    (capacity bw : ℕ) (bytes : List ℕ) (index : ℕ)
    → capacity < 2 ^ 63
    → index + length bytes < 2 ^ 64
    → bw + capacity < index
    → cut_to_capacity capacity bw (record { sv = bytes; index = index })
      ≡ record { sv = bytes; index = index }
unfolding cut_to_capacity
cut_none capacity bw bytes index c w h =
    if_false _ _ (le→ltb (sub64 capacity (sub64 index bw)) (length bytes) (omega arith))

buffer-end_at_eof : (r : StreamReassembler) → (end_at_eof r).buffer ≡ r.buffer
unfolding end_at_eof
buffer-end_at_eof r = ground arith

written-end_at_eof :
    (r : StreamReassembler) → (end_at_eof r).output.bytes_written ≡ r.output.bytes_written
unfolding end_at_eof
written-end_at_eof r = ground arith

push_nothing :
    (r : StreamReassembler) (index : ℕ) (eof : Bool)
    → (r' : StreamReassembler) × (push_view r (record { sv = []; index = index }) eof ≡ some r')
      × (r'.buffer ≡ r.buffer)
      × (r'.output.bytes_written ≡ r.output.bytes_written)
unfolding push_view feed
push_nothing r index eof =
    let marked = record r { eof_index = if eof then some (add64 index 0) else r.eof_index } in
    (end_at_eof marked, refl, buffer-end_at_eof marked, written-end_at_eof marked)

feed_fails :
    (r : StreamReassembler) (bytes : List ℕ) (index : ℕ)
    → 0 < length bytes
    → Buffer.push_substring r.buffer bytes index r.output.bytes_written ≡ none
    → feed r bytes index ≡ none
unfolding feed
feed_fails r [] index h e = absurd (omega arith)
feed_fails r (x ∷ xs) index h e = rw (feed, e) refl

push_view_fails :
    (r : StreamReassembler) (bytes : List ℕ) (index : ℕ) (eof : Bool)
    → 0 < length bytes
    → Buffer.push_substring r.buffer bytes index r.output.bytes_written ≡ none
    → push_view r (record { sv = bytes; index = index }) eof ≡ none
unfolding push_view
push_view_fails r bytes index eof h e =
    let marked = record r {
      eof_index = if eof then some (add64 index (length bytes)) else r.eof_index;
    } in
    rw (push_view, feed_fails marked bytes index h e) refl

-- Bytes that begin exactly a capacity after those written are all cut: nothing is stored and nothing
-- written. Those that begin later are not cut, since the length to keep wraps below zero, and an
-- assertion of the buffer fails.
pub push_substring_beyond :
    (stream : ℕ → ℕ) (r : StreamReassembler) (bytes : List ℕ) (index : ℕ) (eof : Bool)
    → Assembles stream r
    → 0 < length bytes
    → index + length bytes < 2 ^ 64
    → (index ≡ r.output.bytes_written + r.capacity
        → (r' : StreamReassembler) × (push_substring r bytes index eof ≡ some r')
          × (r'.buffer ≡ r.buffer)
          × (r'.output.bytes_written ≡ r.output.bytes_written))
      × (r.output.bytes_written + r.capacity < index → push_substring r bytes index eof ≡ none)
unfolding kept
push_substring_beyond stream r bytes index eof a some_bytes w =
    let bw = r.output.bytes_written in
    (
      λ e.
          let (r', run, same, written) = push_nothing r index eof in
          (
            r',
            push_kept r bytes index eof (omega arith) w
                ∙ ap (λ v. push_view r (cut_to_capacity r.capacity bw v) eof)
                    (unskipped bw bytes index (omega arith))
                ∙ ap (λ v. push_view r v eof)
                    (cut_whole r.capacity bw bytes index
                      (omega (arith, a.holds.small, a.same_buffer)) (omega arith) e)
                ∙ run,
            same,
            written,
          ),
      λ h.
          push_kept r bytes index eof (omega arith) w
          ∙ ap (λ v. push_view r (cut_to_capacity r.capacity bw v) eof)
              (unskipped bw bytes index (omega arith))
          ∙ ap (λ v. push_view r v eof)
              (cut_none r.capacity bw bytes index (omega (arith, a.holds.small, a.same_buffer)) w h)
          ∙ push_view_fails r bytes index eof some_bytes (
              push_substring_asserts r.buffer bytes index bw (omega arith) (omega arith)
                (inr (omega (arith, a.same_buffer)))),
    )
