-- ===== src/Transfer/Running.antt =====
-- A whole transfer: any actions, in any order.
use cs144_labs.Prelude.{
  ℕ, ◌+◌, ◌^◌, ◌≤◌, ◌<◌, ◌≡◌, ◌⊎◌, inl, inr, refl, sym, ◌∙◌, true, false, some, List, [], ◌∷◌, ◌++◌,
  arith, Bool-cases, tabulate, lt→ltb, length, take, length-take, length-tabulate, get_or-take,
  get_or-tabulate, list_ext, tabulate-zero, take_all,
}
use mathlib.Core.Path.{subst₂}
use cs144_labs.ByteStream
use cs144_labs.ByteStream.{write, read}
use cs144_labs.ByteStream.Refinement.{contents}
use cs144_labs.Receiver
use cs144_labs.Receiver.{TcpReceiver, segment_received}
use cs144_labs.Reassembler
use cs144_labs.Transfer.{Link, start, Action, run, all_offered}
use cs144_labs.Transfer.Writing.{new-Sends}
use cs144_labs.Transfer.Bounding.{new-Bounded}
use cs144_labs.Transfer.Acting.{Invariant, stream_of, IsPart-stream_of, Leads}
use cs144_labs.Transfer.Delivering.{perform_lem}

module _ (capacity isn : ℕ) (pos : 0 < capacity) (small : capacity < 2 ^ 63)
    (word : isn < 2 ^ 32) where
  run_lem :
      (l : Link) (actions : List Action)
      → Invariant capacity isn l
      → length l.given + all_offered actions < 2 ^ 31
      → Leads capacity isn pos small word l (all_offered actions) (run l actions)
  unfolding run
  run_lem l [] inv h = (l, refl, inv, omega arith)
  run_lem l (a ∷ actions) inv h =
      let (m, done, inv', more) = perform_lem capacity isn pos small word l a inv (omega arith) in
      let (n, rest, inv'', more') = run_lem m actions inv' (omega arith) in
      (n, rw (run, done) rest, inv'', omega arith)

  start-Invariant :
      (send_capacity timeout : ℕ)
      → 0 < send_capacity
      → send_capacity < 2 ^ 63
      → Invariant capacity isn (start send_capacity capacity timeout isn)
  start-Invariant send_capacity timeout h k f part = record {
    sending = new-Sends f send_capacity timeout isn h k word;
    receiving = inl (refl, refl);
    bounded = unfold Receiver.new in new-Bounded capacity 0 _;
    wire_placed = tt;
  }

-- The first entries of a list are those of its stream.
tabulate-stream_of :
    (given : List ℕ) (n : ℕ) → n ≤ length given → tabulate (stream_of given) n ≡ take n given
tabulate-stream_of given n h =
    list_ext 0 _ _ (omega (arith, length-tabulate (stream_of given) n, length-take n given)) λ i p.
      let q : i < n = omega (arith, length-tabulate (stream_of given) n) in
      get_or-tabulate 0 (stream_of given) n i q
      ∙ sym (get_or-take 0 n given i ∙ rw (lt→ltb i n q) refl)

-- What the reader has had and what waits for it, in any state that the invariant holds of.
Invariant-in_order :
    (capacity isn : ℕ) (l : Link)
    → Invariant capacity isn l
    → let out = l.receiver.reassembler.output in
      (l.taken ++ contents out ≡ take out.bytes_written l.given)
      × ((out.input_ended ≡ false)
          ⊎ ((l.sender.stream.input_ended ≡ true) × (l.taken ++ contents out ≡ l.given)))
Invariant-in_order capacity isn l inv =
    let out = l.receiver.reassembler.output in
    let v = inv (stream_of l.given) (IsPart-stream_of l.given) in
    let in_order : l.taken ++ contents out ≡ tabulate (stream_of l.given) out.bytes_written =
      elim v.receiving [
        | inl c ↦
            subst₂
              (λ t u.
                t ++ contents u.reassembler.output
                ≡ tabulate (stream_of l.given) u.reassembler.output.bytes_written)
              (sym c.1) (sym c.0)
              (unfold Receiver.new Reassembler.new ByteStream.new in
                tabulate-zero _ ∙ sym (tabulate-zero (stream_of l.given)))
        | inr c ↦ c.1.in_order
      ] in
    let prefix = in_order ∙ tabulate-stream_of l.given out.bytes_written v.bounded.written in
    (
      prefix,
      elim (Bool-cases out.input_ended) [
        | inl e ↦
            let (x, y) = v.bounded.end_reached e in
            inr (x, prefix ∙ take_all out.bytes_written l.given (omega arith))
        | inr e ↦ inl e
      ],
    )

-- A new sender and a new receiver, joined by a network that may lose, delay, reorder and repeat
-- segments, with any acknowledgments, for less than 2 ^ 31 bytes in all: whatever is done, in whatever
-- order, no assertion of the code fails. What the reader has had, with what waits for it, is the
-- beginning of what the sender's stream has accepted, byte for byte; and once the receiver's stream has
-- ended, the writer has ended the sender's and this is all of it. Segments that end beyond the
-- advertised window count as lost.
pub run-in_order :
    (send_capacity receive_capacity timeout isn : ℕ) (actions : List Action)
    → 0 < send_capacity
    → send_capacity < 2 ^ 63
    → 0 < receive_capacity
    → receive_capacity < 2 ^ 63
    → isn < 2 ^ 32
    → all_offered actions < 2 ^ 31
    → (l : Link) × (run (start send_capacity receive_capacity timeout isn) actions ≡ some l)
      × (l.taken ++ contents l.receiver.reassembler.output
          ≡ take l.receiver.reassembler.output.bytes_written l.given)
      × ((l.receiver.reassembler.output.input_ended ≡ false)
          ⊎ ((l.sender.stream.input_ended ≡ true)
              × (l.taken ++ contents l.receiver.reassembler.output ≡ l.given)))
run-in_order send_capacity receive_capacity timeout isn actions h1 h2 h3 h4 word few =
    let (l, done, inv, _) =
      run_lem receive_capacity isn h3 h4 word (start send_capacity receive_capacity timeout isn)
        actions (start-Invariant receive_capacity isn h3 h4 word send_capacity timeout h1 h2)
        (omega arith) in
    let (prefix, whole) = Invariant-in_order receive_capacity isn l inv in (l, done, prefix, whole)
