-- ===== src/Cyclic/Laws.antt =====
-- What the two-piece copies do, position by position.
use cs144_labs.Prelude.{
  ◌%◌, ap, ℕ, ◌+◌, ◌-◌, ◌^◌, ◌≤◌, ◌<◌, ◌≡◌, Bool, true, false, List, arith, if◌then◌else◌, ltb,
  lt→ltb, le→ltb, length, take, drop, slice, copy_into, get_or, length-take, length-append,
  length-copy_into, length-tabulate, get_or-take, get_or-drop, get_or-append, get_or-copy_into,
  get_or-tabulate, list_ext, mod_once, sub64, length-slice, ◌∙◌, sym, refl,
}
use native.Mathlib.Nat.{mod-add-mod}
use cs144_labs.Cyclic.{ring_write, ring_read, byte_at, window}

pub length-ring_write :
    (fits : Bool) (buf : List ℕ) (cap pos : ℕ) (src : List ℕ) (n : ℕ)
    → length (ring_write fits buf cap pos src n) ≡ length buf
unfolding ring_write
length-ring_write true buf cap pos src n = length-copy_into buf pos (take n src)
length-ring_write false buf cap pos src n = omega (
  arith,
  length-copy_into (copy_into buf pos (take (sub64 cap pos) src)) 0
      (slice src (sub64 cap pos) (sub64 n (sub64 cap pos))),
  length-copy_into buf pos (take (sub64 cap pos) src),
)

-- How far the position `i` lies after `pos`, going round.
abbrev pub offset : ℕ → ℕ → ℕ → ℕ
offset cap pos i = if ltb i pos then i + cap - pos else i - pos

module _ (buf : List ℕ) (cap pos : ℕ) (src : List ℕ) (n i : ℕ) where
  ring_write_fits :
      length buf ≡ cap
      → pos + n ≤ cap
      → n ≤ length src
      → i < cap
      → get_or (ring_write true buf cap pos src n) i 0
        ≡ (if ltb (offset cap pos i) n then get_or src (offset cap pos i) 0 else get_or buf i 0)
  unfolding ring_write
  ring_write_fits hb hn hs hi = ground (
    arith,
    get_or-copy_into 0 buf pos (take n src) i,
    length-take n src,
    get_or-take 0 n src (i - pos),
  )

  ring_write_wraps :
      length buf ≡ cap
      → cap < 2 ^ 63
      → pos < cap
      → n ≤ cap
      → cap < pos + n
      → n ≤ length src
      → i < cap
      → get_or (ring_write false buf cap pos src n) i 0
        ≡ (if ltb (offset cap pos i) n then get_or src (offset cap pos i) 0 else get_or buf i 0)
  unfolding ring_write
  ring_write_wraps hb hc hp hn hw hs hi =
      let copy1 = sub64 cap pos in
      let rest = sub64 n copy1 in
      ground (
        arith,
        get_or-copy_into 0 (copy_into buf pos (take copy1 src)) 0 (slice src copy1 rest) i,
        length-copy_into buf pos (take copy1 src),
        get_or-copy_into 0 buf pos (take copy1 src) i,
        length-take copy1 src,
        length-slice src copy1 rest,
        get_or-take 0 copy1 src (i - pos),
        get_or-take 0 rest (drop copy1 src) i,
        get_or-drop 0 copy1 src i,
      )

-- Both pieces together put byte `k` of the source `k` places after `pos`, and keep every other byte.
pub get_or-ring_write :
    (fits : Bool) (buf : List ℕ) (cap pos : ℕ) (src : List ℕ) (n i : ℕ)
    → length buf ≡ cap
    → cap < 2 ^ 63
    → pos < cap
    → n ≤ cap
    → n ≤ length src
    → (fits ≡ true → pos + n ≤ cap)
    → (fits ≡ false → cap < pos + n)
    → i < cap
    → get_or (ring_write fits buf cap pos src n) i 0
      ≡ (if ltb (offset cap pos i) n then get_or src (offset cap pos i) 0 else get_or buf i 0)
get_or-ring_write true buf cap pos src n i hb hc hp hn hs ht hf hi =
    ring_write_fits buf cap pos src n i hb (ht refl) hs hi
get_or-ring_write false buf cap pos src n i hb hc hp hn hs ht hf hi =
    ring_write_wraps buf cap pos src n i hb hc hp hn (hf refl) hs hi

module _ (buf : List ℕ) (cap start n : ℕ) (hb : length buf ≡ cap) (hc : cap < 2 ^ 63)
    (hs : start < cap) (hn : n ≤ cap) where
  pub length-ring_read : length (ring_read buf cap start n) ≡ n
  unfolding ring_read
  length-ring_read =
      let copy1 = sub64 cap start in
      ground (
        arith,
        length-slice buf start n,
        length-append (slice buf start copy1) (slice buf 0 (sub64 n copy1)),
        length-slice buf start copy1,
        length-slice buf 0 (sub64 n copy1),
      )

  pub get_or-ring_read :
      (k : ℕ) → k < n → get_or (ring_read buf cap start n) k 0 ≡ byte_at buf cap start k
  unfolding ring_read
  get_or-ring_read k hk =
      let copy1 = sub64 cap start in
      ground (
        arith,
        mod_once (start + k) cap,
        get_or-take 0 n (drop start buf) k,
        get_or-drop 0 start buf k,
        get_or-append 0 (slice buf start copy1) (slice buf 0 (sub64 n copy1)) k,
        length-slice buf start copy1,
        get_or-take 0 copy1 (drop start buf) k,
        get_or-take 0 (sub64 n copy1) buf (k - copy1),
      )

  -- The copy out is the window of the buffer.
  pub ring_read_lem : ring_read buf cap start n ≡ window buf cap start n
  ring_read_lem =
      list_ext 0 _ _ (length-ring_read ∙ sym (length-tabulate (byte_at buf cap start) n)) (λ k h.
        get_or-ring_read k (omega (arith, length-ring_read))
        ∙ sym (get_or-tabulate 0 (byte_at buf cap start) n k (omega (arith, length-ring_read))))

-- A choice by the offset is a choice by any test that says the same.
pub if_offset :
    (t : Bool) (o d n : ℕ) (f : ℕ → ℕ) (y : ℕ)
    → (t ≡ true → o ≡ d)
    → (t ≡ true → d < n)
    → (t ≡ false → n ≤ o)
    → (if ltb o n then f o else y) ≡ (if t then f d else y)
if_offset true o d n f y h k l = rw (h refl, lt→ltb d n (k refl))
if_offset false o d n f y h k l = rw (le→ltb o n (l refl))

pub byte_at_later :
    (buf : List ℕ) (cap start n k : ℕ)
    → byte_at buf cap ((start + n) % cap) k ≡ byte_at buf cap start (n + k)
byte_at_later buf cap start n k =
    ap (λ i. get_or buf i 0) (mod-add-mod (start + n) cap k ∙ ap (λ t. t % cap) (omega arith))
