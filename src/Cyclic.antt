-- ===== src/Cyclic.antt =====
-- Copies into and out of a cyclic buffer, each in at most two pieces: the shape that
-- libsponge/byte_stream.cc and libsponge/stream_reassembler.cc share.
pub mod Laws
use cs144_labs.Prelude.{
  ℕ, ◌+◌, ◌%◌, Bool, List, ◌++◌, if◌then◌else◌, leb, take, slice, copy_into, get_or, tabulate,
  add64, sub64,
}

-- The first `n` bytes of `src` go to the positions from `pos` on, and round the end where the
-- caller's test says that they do not fit before it.
unfoldable pub ring_write : Bool → List ℕ → ℕ → ℕ → List ℕ → ℕ → List ℕ
ring_write fits buf cap pos src n =
    let copy1 = sub64 cap pos in
    if fits
    then copy_into buf pos (take n src)
    else copy_into (copy_into buf pos (take copy1 src)) 0 (slice src copy1 (sub64 n copy1))

-- `n` bytes from the position `start` on.
unfoldable pub ring_read : List ℕ → ℕ → ℕ → ℕ → List ℕ
ring_read buf cap start n =
    let copy1 = sub64 cap start in
    if leb (add64 start n) cap
    then slice buf start n
    else slice buf start copy1 ++ slice buf 0 (sub64 n copy1)

-- The byte `k` places after `start`, going round at `cap`.
abbrev pub byte_at : List ℕ → ℕ → ℕ → ℕ → ℕ
byte_at buf cap start k = get_or buf ((start + k) % cap) 0

-- The `n` bytes from `start` on.
abbrev pub window : List ℕ → ℕ → ℕ → ℕ → List ℕ
window buf cap start n = tabulate (byte_at buf cap start) n
