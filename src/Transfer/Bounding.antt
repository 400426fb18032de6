-- ===== src/Transfer/Bounding.antt =====
-- What the reassembler of a transfer can know of: nothing beyond what was written, and no other end.
use cs144_labs.Prelude.{
  ℕ, ◌+◌, ◌-◌, ◌≤◌, ◌<◌, ◌≡◌, inl, inr, refl, sym, ◌∙◌, Bool, true, false, some, arith,
}
use native.Mathlib.Decide.{dec_lt}
use cs144_labs.Reassembler.{StreamReassembler}
use cs144_labs.Prelude.{some_inj}
use cs144_labs.Prelude.{Option, none, Bool-cases, ◌||◌, if◌then◌else◌}
use cs144_labs.ByteStream
use cs144_labs.Reassembler
use cs144_labs.Reassembler.Intervals.{in_interval}
use cs144_labs.Reassembler.Pushing.{known}
use cs144_labs.Reassembler.Window.{Pushed, at_end}
use cs144_labs.Transfer.Marking.{Bounded}

-- A new reassembler knows of nothing.
pub new-Bounded :
    (capacity total : ℕ) (ended : Bool) → Bounded total ended (Reassembler.new capacity)
unfolding Reassembler.new ByteStream.new
new-Bounded capacity total ended = record {
  written = omega arith;
  covered = λ j c. cc;
  end_known = λ e h. cc;
  end_reached = λ h. cc;
}

-- What is covered after a call was covered before or is in the substring.
known_inside :
    (total : ℕ) (ended : Bool) (a : Reassembler.StreamReassembler) (index n : ℕ)
    → Bounded total ended a
    → index + n ≤ total
    → (j : ℕ) → known a index n j ≡ true
    → j < total
known_inside total ended a index n b h j c = elim (Bool-cases (in_interval index n j)) [
  | inl e ↦ ground arith
  | inr e ↦ b.covered j (rw e at c)
]

at_end_known : (o : Option ℕ) (n : ℕ) → at_end o n ≡ true → (e : ℕ) × (o ≡ some e) × (n ≡ e)
at_end_known none n h = absurd (cc h)
at_end_known (some e) n h = (e, refl, ground arith)

-- A substring inside the stream, with the mark of the end only where the stream ends.
pub pushed-Bounded :
    (f : ℕ → ℕ) (total : ℕ) (ended fin : Bool) (a a' : Reassembler.StreamReassembler) (index n : ℕ)
    → Bounded total ended a
    → Pushed f a index n fin a'
    → index + n ≤ total
    → (fin ≡ true → (ended ≡ true) × (index + n ≡ total))
    → Bounded total ended a'
pushed-Bounded f total ended fin a a' index n b p h last =
    let d = p.assembled in
    let inside = known_inside total ended a index n b h in
    let known_end = ends_known fin last p.eof_known in
    let bound : a'.output.bytes_written ≤ total =
      elim (dec_lt a.output.bytes_written a'.output.bytes_written) [
        | yes q ↦
            let top =
              inside (a'.output.bytes_written - 1)
                (d.no_gap (a'.output.bytes_written - 1) (omega arith) (omega (arith, d.written))) in
            omega arith
        | no q ↦ omega (arith, b.written)
      ] in
    record {
      written = bound;
      covered = λ j c. elim (dec_lt j a'.output.bytes_written) [
        | yes q ↦ omega arith
        | no q ↦ inside j (sym (d.keeps j (omega (arith, d.written))) ∙ c)
      ];
      end_known = known_end;
      end_reached = λ h. elim (Bool-cases a.output.input_ended) [
        | inl e ↦ let (x, y) = b.end_reached e in (x, omega (arith, d.written))
        | inr e ↦
            let flag : (a.output.input_ended || at_end a'.eof_index a'.output.bytes_written)
                ≡ true =
              sym p.ended ∙ h in
            let (at, marked, same) = at_end_known a'.eof_index _ (rw e at flag) in
            let (x, y) = known_end at marked in (x, omega arith)
      ];
    }
  where
    ends_known :
        (fin : Bool)
        → (fin ≡ true → (ended ≡ true) × (index + n ≡ total))
        → a'.eof_index ≡ (if fin then some (index + n) else a.eof_index)
        → (e : ℕ) → a'.eof_index ≡ some e
        → (ended ≡ true) × (e ≡ total)
    ends_known true last k e h =
        let same : index + n ≡ e = some_inj (sym k ∙ h) in
        let (x, y) = last refl in (x, omega arith)
    ends_known false last k e h = b.end_known e (sym k ∙ h)

-- What is written later is beyond what the reassembler knows.
pub Bounded-later :
    (total total' : ℕ) (ended ended' : Bool) (a : Reassembler.StreamReassembler)
    → total ≤ total'
    → (ended ≡ true → (ended' ≡ true) × (total' ≡ total))
    → Bounded total ended a
    → Bounded total' ended' a
Bounded-later total total' ended ended' a h same b = record {
  written = omega (arith, b.written);
  covered = λ j c. omega (arith, b.covered j c);
  end_known = λ e k. let (x, y) = b.end_known e k in let (z, w) = same x in (z, omega arith);
  end_reached = λ k. let (x, y) = b.end_reached k in let (z, w) = same x in (z, omega arith);
}
