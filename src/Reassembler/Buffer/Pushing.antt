-- ===== src/Reassembler/Buffer/Pushing.antt =====
-- `UnAssembleBuffer::push_substring`: what it pops, and what it keeps.
use cs144_labs.Prelude.{
  ℕ, ◌+◌, ◌-◌, ◌%◌, ◌^◌, ◌≤◌, ◌<◌, ◌≡◌, ◌≢◌, ◌⊎◌, inl, inr, refl, sym, ap, ◌∙◌, Bool, true, false,
  ◌||◌, none, some, List, [], ◌∷◌, arith, ◌==◌, ==_iff, Bool-cases, length, get_or, tabulate,
  length-tabulate, get_or-tabulate, list_ext, add64, sub64, mod_once,
}
use mathlib.Core.Path.{fun_ext}
use cs144_labs.Prelude.{tabulate-zero}
use cs144_labs.Cyclic.{ring_read, byte_at}
use cs144_labs.Cyclic.Laws.{length-ring_read, get_or-ring_read, byte_at_later}
use cs144_labs.Reassembler.Intervals.{Interval, covers, total, in_interval}
use cs144_labs.Reassembler.Intervals.Apart.{
  Apart, EndsBy, Apart-mono, EndsBy-mono, total_bound, covers_early,
}
use cs144_labs.Reassembler.Buffer.{UnAssembleBuffer, pop_first, store_substring, push_substring}
use cs144_labs.Reassembler.Buffer.Holding.{
  Holds, IsPart, store_substring-Holds, covers-store_substring,
}

-- The bytes of the stream from `start` on.
abbrev pub stretch : (ℕ → ℕ) → ℕ → ℕ → List ℕ
stretch stream start n = tabulate (λ k. stream (start + k)) n

-- What a call has done: it popped the next bytes of the stream, as many as are there without a gap,
-- and it holds the rest of what was covered.
pub record Popped (stream : ℕ → ℕ) (start : ℕ) (covered : ℕ → Bool)
    (out : UnAssembleBuffer × List ℕ) : Type 0 where
  pub next_bytes : out.1 ≡ stretch stream start (length out.1)
  pub no_gap : (j : ℕ) → start ≤ j → j < start + length out.1 → covered j ≡ true
  pub stops : covered (start + length out.1) ≡ false
  pub holds : Holds stream (start + length out.1) out.0
  pub keeps : (j : ℕ) → start + length out.1 ≤ j → covers out.0.index_map j ≡ covered j

-- Nothing to pop: the byte at `start` is not there.
waits-Popped :
    (stream : ℕ → ℕ) (start : ℕ) (b : UnAssembleBuffer)
    → Holds stream start b
    → covers b.index_map start ≡ false
    → Popped stream start (covers b.index_map) (b, [])
waits-Popped stream start b v c =
    let e : start + 0 ≡ start = omega arith in
    record {
      next_bytes = sym (tabulate-zero (λ k. stream (start + k)));
      no_gap = λ j h k. absurd (omega arith);
      stops = rw e c;
      holds = rw e v;
      keeps = λ j h. refl;
    }

module _ (stream : ℕ → ℕ) (start : ℕ) (b : UnAssembleBuffer) (x : Interval) (xs : List Interval)
    (v : Holds stream start b) (e : b.index_map ≡ x ∷ xs) (t : x.first ≡ start) where
  abbrev n : ℕ
  n = x.second

  apart : Apart start (x ∷ xs)
  apart = rw e at v.apart

  ends : EndsBy (start + b.capacity) (x ∷ xs)
  ends = rw e at v.ends

  counted : b.used_size ≡ n + total xs
  counted = v.counted ∙ ap total e

  in_first : (j : ℕ) → start ≤ j → j < start + n → covers b.index_map j ≡ true
  in_first j h k = rw e (ground arith)

  after_first : (j : ℕ) → start + n ≤ j → covers b.index_map j ≡ covers xs j
  after_first j h = rw e (ground arith)

  rest-Apart : Apart (start + n + 1) xs
  rest-Apart = rw (← t) apart.2

  fits : n ≤ b.capacity
  fits = omega (arith, ends.0)

  next_read : ring_read b.buffer b.capacity b.start_pos n ≡ stretch stream start n
  next_read =
      list_ext 0 _ _ (size ∙ sym (length-tabulate (λ k. stream (start + k)) n))
        λ k h. entry k (omega (arith, size))
    where
      size : length (ring_read b.buffer b.capacity b.start_pos n) ≡ n
      size = length-ring_read b.buffer b.capacity b.start_pos n v.storage v.small v.start_in fits

      entry :
          (k : ℕ)
          → k < n
          → get_or (ring_read b.buffer b.capacity b.start_pos n) k 0
            ≡ get_or (stretch stream start n) k 0
      entry k h =
          get_or-ring_read b.buffer b.capacity b.start_pos n v.storage v.small v.start_in fits k h
          ∙ ap (byte_at b.buffer b.capacity b.start_pos) (omega arith)
          ∙ v.bytes (start + k) (in_first (start + k) (omega arith) (omega arith))
          ∙ sym (get_or-tabulate 0 (λ i. stream (start + i)) n k h)

  abbrev popped : UnAssembleBuffer
  popped = record b {
    index_map = xs;
    used_size = sub64 b.used_size n;
    start_pos = add64 b.start_pos n % b.capacity;
  }

  popped-Holds : Holds stream (start + n) popped
  popped-Holds = record {
    storage = v.storage;
    room = v.room;
    small = v.small;
    start_in = omega (arith, mod_once (b.start_pos + n) b.capacity, fits);
    apart = Apart-mono (start + n + 1) (start + n) xs (omega arith) rest-Apart;
    ends = EndsBy-mono (start + b.capacity) (start + n + b.capacity) xs (omega arith) ends.1;
    counted = omega (
      arith,
      counted,
      fits,
      total_bound start (start + b.capacity) (x ∷ xs) (omega arith, apart.1, apart.2) ends,
    );
    bytes = λ j c. moved j (ground (arith, covers_early (start + n + 1) xs j rest-Apart)) c;
  }
    where
      moved :
          (j : ℕ)
          → start + n + 1 ≤ j
          → covers xs j ≡ true
          → byte_at b.buffer b.capacity (add64 b.start_pos n % b.capacity) (j - (start + n))
            ≡ stream j
      moved j h c =
          let e : add64 b.start_pos n ≡ b.start_pos + n = omega (arith, fits) in
          let here : byte_at b.buffer b.capacity (add64 b.start_pos n % b.capacity)
                (j - (start + n))
              ≡ byte_at b.buffer b.capacity b.start_pos (n + (j - (start + n))) =
            rw e (byte_at_later b.buffer b.capacity b.start_pos n (j - (start + n))) in
          here
          ∙ ap (byte_at b.buffer b.capacity b.start_pos) (omega arith)
          ∙ v.bytes j (after_first j (omega arith) ∙ c)

  pops-Popped :
      Popped stream start (covers b.index_map) (popped, ring_read b.buffer b.capacity b.start_pos n)
  pops-Popped =
      let size =
        length-ring_read b.buffer b.capacity b.start_pos n v.storage v.small v.start_in fits in
      record {
        next_bytes = rw size next_read;
        no_gap = λ j h k. in_first j h (omega (arith, size));
        stops = rw size (
            after_first (start + n) (omega arith)
            ∙ covers_early (start + n + 1) xs (start + n) rest-Apart (omega arith));
        holds = rw size popped-Holds;
        keeps = λ j h. sym (after_first j (omega (arith, size)));
      }

first_later :
    (start : ℕ) (b : UnAssembleBuffer) (x : Interval) (xs : List Interval)
    → b.index_map ≡ x ∷ xs
    → Apart start b.index_map
    → x.first ≢ start
    → covers b.index_map start ≡ false
first_later start b x xs e a h =
    let a' : Apart start (x ∷ xs) = rw e at a in
    rw e (covers_early (start + 1) (x ∷ xs) start (ground arith, a'.1, a'.2) (omega arith))

-- Whatever the map, the first entry is popped exactly when it begins at `start`.
pop_first-Popped :
    (stream : ℕ → ℕ) (start : ℕ) (b : UnAssembleBuffer) (xs : List Interval)
    → b.index_map ≡ xs
    → Holds stream start b
    → Popped stream start (covers b.index_map) (pop_first b xs start)
unfolding pop_first
pop_first-Popped stream start b [] e v = waits-Popped stream start b v (rw e)
pop_first-Popped stream start b (x ∷ xs) e v = elim (Bool-cases (x.first == start)) [
  | inl t ↦ rw t (pops-Popped stream start b x xs v e ((==_iff x.first start).0 t))
  | inr t ↦
      rw t (waits-Popped stream start b v (first_later start b x xs e v.apart (λ q. ground arith)))
]

-- A substring of the stream that lies in the window of the buffer is accepted. The call returns the
-- next bytes of the stream from `start` on, exactly as many as are now there without a gap, and the
-- buffer holds every other byte that it was given, each at its index.
pub push_substring-Popped :
    (stream : ℕ → ℕ) (start : ℕ) (b : UnAssembleBuffer) (bytes : List ℕ) (index : ℕ)
    → Holds stream start b
    → start + b.capacity < 2 ^ 64
    → IsPart stream bytes index
    → 0 < length bytes
    → start ≤ index
    → index + length bytes ≤ start + b.capacity
    → (out : UnAssembleBuffer × List ℕ) × (push_substring b bytes index start ≡ some out)
      × Popped stream start (λ j. in_interval index (length bytes) j || covers b.index_map j) out
unfolding push_substring
push_substring-Popped stream start b bytes index v w part h p q =
    let stored = store_substring b bytes index start in
    let held = store_substring-Holds stream start b bytes index v w part h p q in
    let all = covers-store_substring stream start b bytes index v w part h p q in
    (
      pop_first stored stored.index_map start,
      ground arith,
      rw (← fun_ext all) (pop_first-Popped stream start stored stored.index_map refl held),
    )

-- A substring that begins before `start`, or a capacity or more after it, fails an assertion.
pub push_substring_asserts :
    (b : UnAssembleBuffer) (bytes : List ℕ) (index start : ℕ)
    → index < 2 ^ 64
    → start < 2 ^ 64
    → (index < start) ⊎ (start + b.capacity ≤ index)
    → push_substring b bytes index start ≡ none
unfolding push_substring
push_substring_asserts b bytes index start h k (inl p) = ground arith
push_substring_asserts b bytes index start h k (inr p) = ground arith

capacity-pop_first :
    (b : UnAssembleBuffer) (xs : List Interval) (start : ℕ)
    → (pop_first b xs start).0.capacity ≡ b.capacity
unfolding pop_first
capacity-pop_first b [] start = refl
capacity-pop_first b (x ∷ xs) start = ground arith

pub capacity-push_substring :
    (b : UnAssembleBuffer) (bytes : List ℕ) (index start : ℕ) (out : UnAssembleBuffer × List ℕ)
    → push_substring b bytes index start ≡ some out
    → out.0.capacity ≡ b.capacity
unfolding push_substring store_substring
capacity-push_substring b bytes index start out h =
    let stored = store_substring b bytes index start in
    ground (arith, capacity-pop_first stored stored.index_map start)
