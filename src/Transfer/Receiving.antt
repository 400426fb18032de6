-- ===== src/Transfer/Receiving.antt =====
-- The receiver's side of a transfer: what arrives goes to its place, and the reader gets the stream.
use cs144_labs.Prelude.{
  ℕ, ◌+◌, ◌%◌, ◌^◌, ◌≤◌, ◌<◌, ◌≡◌, inl, inr, refl, sym, ap, ◌∙◌, Bool, true, some, List, [], ◌++◌,
  arith, length, take,
}
use native.Mathlib.Decide.{dec_lt}
use cs144_labs.Segment.{TcpSegment}
use cs144_labs.Receiver.{TcpReceiver, new}
use cs144_labs.Receiver.Validity.{Receives}
use cs144_labs.Reassembler.{StreamReassembler}
use cs144_labs.Reassembler.Buffer.Holding.{IsPart}
use cs144_labs.Reassembler.Delivery.{Delivered}
use mathlib.Core.Path.{subst, subst₂}
use cs144_labs.Prelude.{leb→le, Bool-cases}
use cs144_labs.ByteStream
use cs144_labs.ByteStream.Validity
use cs144_labs.ByteStream.Queue.{peek_refines}
use cs144_labs.Prelude.{min, ap₂, take_all, tabulate-zero}
use cs144_labs.Reassembler
use cs144_labs.Reassembler.Delivery.{
  read_output, read_output-Assembles, new-Delivered, pushed_in_order, reads-Delivered,
}
use cs144_labs.Receiver.{window_size, segment_received}
use cs144_labs.Receiver.Receiving.{
  segment_received-Received, syn_received, skip_before_syn, unwrap_near,
}
use cs144_labs.Transfer.{ends_in_window}
use cs144_labs.Transfer.Marking.{Placed, Bounded, IsIn}
use cs144_labs.Transfer.Bounding.{new-Bounded, pushed-Bounded}

-- The arrival of a placed segment at a receiver that has had the SYN, inside its window.
later_arrival :
    (f : ℕ → ℕ) (capacity isn total : ℕ) (ended : Bool) (taken : List ℕ) (r : TcpReceiver)
    (seg : TcpSegment)
    → total < 2 ^ 31
    → capacity < 2 ^ 63
    → Placed f isn total ended seg
    → Bounded total ended r.reassembler
    → Receives f isn r
    → Delivered f taken r.reassembler
    → r.capacity ≡ capacity
    → ends_in_window r seg r.isn ≡ true
    → (r' : TcpReceiver) × (segment_received r seg ≡ some r')
      × IsIn f capacity isn taken r'
      × Bounded total ended r'.reassembler
later_arrival f capacity isn total ended taken r seg small k p b v d same window =
    let written = b.written in
    let inside = p.inside in
    let fits : ends_in_window r seg (some isn) ≡ true =
      subst (λ o. ends_in_window r seg o ≡ true) v.isn_known window in
    let at = unwrap_near f isn r seg p.index v (omega arith) p.number (omega arith) (omega arith) in
    let ends : p.index + length seg.payload ≤ r.reassembler.output.bytes_written + window_size r =
      omega (arith, leb→le _ _ fits, at) in
    let (r', run, done) =
      segment_received-Received f isn r seg p.index v (omega arith) (omega arith) p.number
        (omega arith) (omega arith) p.part ends in
    let after : IsIn f capacity isn taken r' × Bounded total ended r'.reassembler =
      elim (dec_lt (p.index + length seg.payload) r.reassembler.output.bytes_written) [
        | yes q ↦
            subst (λ t. IsIn f capacity isn taken t × Bounded total ended t.reassembler)
              (sym (done.stale q)) (inr (v, d, same), b)
        | no q ↦
            let pushed = done.pushed (omega arith) in
            (
              inr (
                done.receives,
                pushed_in_order f taken r.reassembler r'.reassembler _ d pushed.assembled,
                done.receives.same_capacity
                    ∙ pushed.assembled.capacity_same
                    ∙ sym v.same_capacity
                    ∙ same,
              ),
              pushed-Bounded f total ended seg.header.fin r.reassembler r'.reassembler p.index
                  (length seg.payload) b pushed inside p.last,
            )
      ] in
    (r', run, after.0, after.1)

-- The arrival of a placed segment at a new receiver.
first_arrival :
    (f : ℕ → ℕ) (capacity isn total : ℕ) (ended : Bool) (seg : TcpSegment)
    → 0 < capacity
    → capacity < 2 ^ 63
    → isn < 2 ^ 32
    → Placed f isn total ended seg
    → ends_in_window (new capacity) seg (new capacity).isn ≡ true
    → (r' : TcpReceiver) × (segment_received (new capacity) seg ≡ some r')
      × IsIn f capacity isn [] r'
      × Bounded total ended r'.reassembler
unfolding new
first_arrival f capacity isn total ended seg pos k word p window =
    let fresh = new-Bounded capacity total ended in
    elim (Bool-cases seg.header.syn) [
      | inl e ↦
          let (same, zero) = p.opens e in
          let part : IsPart f seg.payload 0 = subst (IsPart f seg.payload) zero p.part in
          let (r', run, v, pushed) =
            syn_received f capacity seg pos k (omega arith) e part (leb→le _ _ window) in
          let inside : 0 + length seg.payload ≤ total = omega (arith, p.inside) in
          (
            r',
            run,
            inr (
              subst (λ i. Receives f i r') same v,
              pushed_in_order f [] (Reassembler.new capacity) r'.reassembler _
                  (new-Delivered f capacity pos k) pushed.assembled,
              v.same_capacity ∙ pushed.assembled.capacity_same ∙ unfold Reassembler.new in refl,
            ),
            pushed-Bounded f total ended seg.header.fin (Reassembler.new capacity) r'.reassembler 0
                (length seg.payload) fresh pushed inside
                (λ h. let (x, y) = p.last h in (x, omega arith)),
          )
      | inr e ↦ (new capacity, skip_before_syn capacity seg e, inl (refl, refl), fresh)
    ]

-- The arrival of a placed segment that ends inside the window: it is never refused.
pub arrival :
    (f : ℕ → ℕ) (capacity isn total : ℕ) (ended : Bool) (taken : List ℕ) (r : TcpReceiver)
    (seg : TcpSegment)
    → 0 < capacity
    → capacity < 2 ^ 63
    → isn < 2 ^ 32
    → total < 2 ^ 31
    → Placed f isn total ended seg
    → Bounded total ended r.reassembler
    → IsIn f capacity isn taken r
    → ends_in_window r seg r.isn ≡ true
    → (r' : TcpReceiver) × (segment_received r seg ≡ some r')
      × IsIn f capacity isn taken r'
      × Bounded total ended r'.reassembler
arrival f capacity isn total ended taken r seg pos k word small p b i window = elim i [
  | inl c ↦
      subst₂
        (λ t u.
          (r' : TcpReceiver) × (segment_received t seg ≡ some r')
          × IsIn f capacity isn u r'
          × Bounded total ended r'.reassembler)
        (sym c.0) (sym c.1)
        (first_arrival f capacity isn total ended seg pos k word p
          (subst (λ t. ends_in_window t seg t.isn ≡ true) c.0 window))
  | inr c ↦ later_arrival f capacity isn total ended taken r seg small k p b c.0 c.1 c.2 window
]

-- The receiver after a read by its owner.
abbrev pub read_from : TcpReceiver → ℕ → TcpReceiver
read_from r len = record r { reassembler = read_output r.reassembler len }

pop_output-new :
    (capacity len : ℕ)
    → 0 < capacity
    → ByteStream.pop_output (ByteStream.new capacity) len ≡ ByteStream.new capacity
unfolding ByteStream.new ByteStream.pop_output
pop_output-new capacity len pos =
    let none_left : min len 0 ≡ 0 = omega arith in
    let start : 0 % capacity ≡ 0 = omega arith in rw (none_left, start) refl

read-new :
    (capacity len : ℕ)
    → 0 < capacity
    → capacity < 2 ^ 63
    → (read_from (new capacity) len ≡ new capacity)
      × ((ByteStream.read (new capacity).reassembler.output len).1 ≡ [])
unfolding new Reassembler.new ByteStream.read
read-new capacity len pos k = (
  ap (λ b. record (new capacity) { reassembler = record (Reassembler.new capacity) { output = b } })
      (pop_output-new capacity len pos),
  peek_refines len (Validity.new-IsValid capacity pos k)
      ∙ ap (take len) (unfold ByteStream.new in tabulate-zero _)
      ∙ take_all len [] (omega arith),
)

-- A read moves bytes from the stream to the reader.
pub read_lem :
    (f : ℕ → ℕ) (capacity isn total len : ℕ) (ended : Bool) (taken : List ℕ) (r : TcpReceiver)
    → 0 < capacity
    → capacity < 2 ^ 63
    → IsIn f capacity isn taken r
    → Bounded total ended r.reassembler
    → IsIn f capacity isn (taken ++ (ByteStream.read r.reassembler.output len).1) (read_from r len)
      × Bounded total ended (read_from r len).reassembler
read_lem f capacity isn total len ended taken r pos k i b = (
  elim i [
    | inl c ↦
        let (same, nothing) = read-new capacity len pos k in
        inl (
          ap (λ t. read_from t len) c.0 ∙ same,
          ap₂ (λ t u. t ++ (ByteStream.read u.reassembler.output len).1) c.1 c.0 ∙ nothing,
        )
    | inr c ↦
        let v = c.0 in
        inr (
          record {
            assembles = read_output-Assembles f r.reassembler len v.assembles;
            same_capacity = v.same_capacity;
            isn_known = v.isn_known;
            isn_word = v.isn_word;
            not_listening = v.not_listening;
            no_error = unfold ByteStream.read ByteStream.pop_output in v.no_error;
          },
          reads-Delivered f taken r.reassembler len c.1,
          c.2,
        )
  ],
  record {
    written = unfold ByteStream.read ByteStream.pop_output in b.written;
    covered = b.covered;
    end_known = b.end_known;
    end_reached = unfold ByteStream.read ByteStream.pop_output in b.end_reached;
  },
)
