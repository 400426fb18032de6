-- ===== src/Reassembler/Pushing.antt =====
-- `StreamReassembler::push_substring` inside the window that the receiver advertises.
use cs144_labs.Prelude.{
  ℕ, ◌+◌, ◌-◌, ◌^◌, ◌≤◌, ◌<◌, ◌≡◌, refl, sym, ap, ◌∙◌, Bool, true, ◌||◌, some, List, [], ◌∷◌, ◌++◌,
  arith, length,
}
use mathlib.Core.Path.{fun_ext}
use mathlib.Core.List.{append-nil}
use cs144_labs.Prelude.{tabulate-zero}
use native.Mathlib.Decide.{dec_lt}
use cs144_labs.ByteStream.Refinement.{contents}
use cs144_labs.ByteStream.Queue.{Written}
use cs144_labs.Reassembler.{StreamReassembler, write_popped, feed}
use cs144_labs.Reassembler.Intervals.{covers, in_interval}
use cs144_labs.Reassembler.Intervals.Apart.{EndsBy, covers_early, covers_late, covers-EndsBy}
use cs144_labs.Reassembler.Buffer
use cs144_labs.Reassembler.Buffer.{UnAssembleBuffer}
use cs144_labs.Reassembler.Buffer.Holding.{IsPart}
use cs144_labs.Reassembler.Buffer.Pushing.{Popped, push_substring-Popped, capacity-push_substring}
use cs144_labs.Reassembler.Assembly.{Assembles, Assembled, room, write_popped-Written}

-- The indices that a call with `n` bytes from `index` on can know of.
abbrev pub known : StreamReassembler → ℕ → ℕ → ℕ → Bool
known r index n j = in_interval index n j || covers r.buffer.index_map j

-- Nothing to add.
same-Assembled :
    (stream : ℕ → ℕ) (r : StreamReassembler)
    → Assembles stream r
    → Assembled stream r (covers r.buffer.index_map) r
same-Assembled stream r a =
    let e : r.output.bytes_written + 0 ≡ r.output.bytes_written = omega arith in
    record {
      count = 0;
      assembles = a;
      capacity_same = refl;
      written = sym e;
      delivered = rw tabulate-zero (sym (append-nil (contents r.output)));
      used_more = omega arith;
      no_gap = λ j h k. absurd (omega arith);
      stops = rw e a.waiting;
      keeps = λ j h. refl;
      error_same = refl;
    }

module _ (stream : ℕ → ℕ) (r : StreamReassembler) (covered : ℕ → Bool)
    (out : UnAssembleBuffer × List ℕ) (a : Assembles stream r)
    (word : r.output.bytes_written + r.capacity < 2 ^ 64)
    (in_window : (j : ℕ) → covered j ≡ true → j < r.output.bytes_written + room r)
    (p : Popped stream r.output.bytes_written covered out)
    (same : out.0.capacity ≡ r.capacity) where
  popped_fits : r.output.used_size + length out.1 ≤ r.output.capacity
  popped_fits = elim (dec_lt 0 (length out.1)) [
    | yes h ↦ omega (
      arith,
      in_window (r.output.bytes_written + (length out.1 - 1))
          (p.no_gap _ (omega arith) (omega arith)),
    )
    | no h ↦ omega arith
  ]

  abbrev after : StreamReassembler
  after = record r { buffer = out.0; output = write_popped r.output out.1 }

  written : Written r.output out.1 after.output
  written = write_popped-Written out.1 a.output_valid popped_fits

  start : after.output.bytes_written ≡ r.output.bytes_written + length out.1
  start = omega (arith, written.written_more, popped_fits)

  tight : EndsBy (r.output.bytes_written + room r) out.0.index_map
  tight =
      covers-EndsBy (r.output.bytes_written + length out.1) (r.output.bytes_written + room r)
        out.0.index_map p.holds.apart
        λ j c. in_window j (
          sym (
            p.keeps j (
              ground (
                arith,
                covers_early (r.output.bytes_written + length out.1) out.0.index_map j
                    p.holds.apart,
              )))
          ∙ c)

  within_same : after.output.bytes_written + room after ≡ r.output.bytes_written + room r
  within_same = omega (arith, start, written.used_more, popped_fits, a.same_output)

  after-Assembled : Assembled stream r covered after
  after-Assembled = record {
    count = length out.1;
    assembles = record {
      output_valid = written.valid;
      holds = rw start p.holds;
      same_output = written.capacity_same ∙ a.same_output;
      same_buffer = same;
      waiting = rw start (p.keeps _ (omega arith) ∙ p.stops);
      within = rw within_same tight;
    };
    capacity_same = refl;
    written = start;
    delivered = written.stored ∙ ap (◌++◌ (contents r.output)) p.next_bytes;
    used_more = written.used_more;
    no_gap = p.no_gap;
    stops = p.stops;
    keeps = p.keeps;
    error_same = written.error_same;
  }

feed_stored :
    (r : StreamReassembler) (x : ℕ) (xs : List ℕ) (index : ℕ) (out : UnAssembleBuffer × List ℕ)
    → Buffer.push_substring r.buffer (x ∷ xs) index r.output.bytes_written ≡ some out
    → feed r (x ∷ xs) index
      ≡ some (record r { buffer = out.0; output = write_popped r.output out.1 })
unfolding feed
feed_stored r x xs index out e = rw (e, feed)

-- The part of a substring that the code keeps goes through the buffer to the output.
pub feed-Assembled :
    (stream : ℕ → ℕ) (r : StreamReassembler) (sv : List ℕ) (index : ℕ)
    → Assembles stream r
    → r.output.bytes_written + r.capacity < 2 ^ 64
    → IsPart stream sv index
    → r.output.bytes_written ≤ index
    → index + length sv ≤ r.output.bytes_written + room r
    → (r' : StreamReassembler) × (feed r sv index ≡ some r')
      × Assembled stream r (known r index (length sv)) r'
      × (r'.output.input_ended ≡ r.output.input_ended)
      × (r'.eof_index ≡ r.eof_index)
feed-Assembled stream r [] index a word part h k =
    let e : (j : ℕ) → known r index 0 j ≡ covers r.buffer.index_map j = λ j. ground arith in
    (r, unfold feed in refl, rw (fun_ext e) (same-Assembled stream r a), refl, refl)
feed-Assembled stream r (x ∷ xs) index a word part h k =
    let (out, e, p) =
      push_substring-Popped stream r.output.bytes_written r.buffer (x ∷ xs) index a.holds
        (omega (arith, a.same_buffer)) part (omega arith) h (omega (arith, a.same_buffer)) in
    let inside : (j : ℕ)
        → known r index (length (x ∷ xs)) j ≡ true
        → j < r.output.bytes_written + room r =
      λ j c.
        ground
          (arith, covers_late (r.output.bytes_written + room r) r.buffer.index_map j a.within) in
    let same =
      capacity-push_substring r.buffer (x ∷ xs) index r.output.bytes_written out e
      ∙ a.same_buffer in
    (
      record r { buffer = out.0; output = write_popped r.output out.1 },
      feed_stored r x xs index out e,
      after-Assembled stream r (known r index (length (x ∷ xs))) out a word inside p same,
      (written stream r (known r index (length (x ∷ xs))) out a word inside p same).ended_same,
      refl,
    )
