-- ===== src/Transfer/Marking.antt =====
-- What holds in a transfer: every segment of the sender is marked with its place in the stream.
use cs144_labs.Prelude.{
  ℕ, ◌+◌, ◌-◌, ◌≤◌, ◌<◌, ◌≡◌, ◌⊎◌, refl, sym, ap, ◌∙◌, Bool, true, false, some, List, [], ◌∷◌, ◌++◌,
  arith, ltb, lt→ltb, le→ltb, length, take, drop, length-append, length-take, length-drop,
  get_or-append, get_or-take, get_or-drop,
}
use native.Mathlib.Decide.{dec_lt}
use cs144_labs.ByteStream.Refinement.{contents}
use cs144_labs.Wrapping.{wrap}
use cs144_labs.Segment.{TcpSegment}
use cs144_labs.Sender.{TcpSender}
use cs144_labs.Sender.Validity.{IsValid}
use cs144_labs.Receiver.{TcpReceiver, new}
use cs144_labs.Receiver.Validity.{Receives}
use cs144_labs.Receiver.Receiving.{first_number}
use cs144_labs.Reassembler.{StreamReassembler}
use cs144_labs.Reassembler.Intervals.{covers}
use cs144_labs.Reassembler.Buffer.Holding.{IsPart}
use cs144_labs.Reassembler.Delivery.{Delivered}

module _ {ℓ} {A : Type ℓ} where
  -- The predicate holds of every entry.
  abbrev pub All : (A → Type 0) → List A → Type 0
  All P [] = Unit {0}
  All P (x ∷ xs) = P x × All P xs

  pub All-append : (P : A → Type 0) (xs ys : List A) → All P xs → All P ys → All P (xs ++ ys)
  All-append P [] ys a b = b
  All-append P (x ∷ xs) ys a b = (a.0, All-append P xs ys a.1 b)

  pub All-map : (P Q : A → Type 0) (xs : List A) → ((x : A) → P x → Q x) → All P xs → All Q xs
  All-map P Q [] f a = tt
  All-map P Q (x ∷ xs) f a = (f x a.0, All-map P Q xs f a.1)

-- A part of a stream and the part behind it.
module _ (f : ℕ → ℕ) (xs ys : List ℕ) (i : ℕ) where
  pub IsPart-append : IsPart f xs i → IsPart f ys (i + length xs) → IsPart f (xs ++ ys) i
  IsPart-append p q k h = elim (dec_lt k (length xs)) [
    | yes a ↦ get_or-append 0 xs ys k ∙ rw (lt→ltb k (length xs) a) (p k a)
    | no a ↦
        get_or-append 0 xs ys k
        ∙ rw (le→ltb k (length xs) (omega arith))
            (q (k - length xs) (omega (arith, length-append xs ys)) ∙ ap f (omega arith))
  ]

  pub IsPart-left : IsPart f (xs ++ ys) i → IsPart f xs i
  IsPart-left p k h =
      sym (get_or-append 0 xs ys k ∙ rw (lt→ltb k (length xs) h) refl)
      ∙ p k (omega (arith, length-append xs ys))

  pub IsPart-right : IsPart f (xs ++ ys) i → IsPart f ys (i + length xs)
  IsPart-right p k h =
      let far : ltb (length xs + k) (length xs) ≡ false = le→ltb _ _ (omega arith) in
      let back : length xs + k - length xs ≡ k = omega arith in
      sym (get_or-append 0 xs ys (length xs + k) ∙ rw (far, back) refl)
      ∙ p (length xs + k) (omega (arith, length-append xs ys))
      ∙ ap f (omega arith)

pub IsPart-take : (f : ℕ → ℕ) (n : ℕ) (xs : List ℕ) (i : ℕ) → IsPart f xs i → IsPart f (take n xs) i
IsPart-take f n xs i p k h =
    get_or-take 0 n xs k
    ∙ rw (lt→ltb k n (omega (arith, length-take n xs))) refl
    ∙ p k (omega (arith, length-take n xs))

pub IsPart-drop :
    (f : ℕ → ℕ) (n : ℕ) (xs : List ℕ) (i : ℕ) → IsPart f xs i → IsPart f (drop n xs) (i + n)
IsPart-drop f n xs i p k h =
    get_or-drop 0 n xs k ∙ p (n + k) (omega (arith, length-drop n xs)) ∙ ap f (omega arith)

-- The place of a segment in the stream `f`, of which `total` bytes are written so far.
pub record Placed (f : ℕ → ℕ) (isn total : ℕ) (ended : Bool) (seg : TcpSegment) : Type 0 where
  pub index : ℕ
  pub number : first_number seg ≡ wrap (index + 1) isn
  pub part : IsPart f seg.payload index
  pub inside : index + length seg.payload ≤ total
  pub last : seg.header.fin ≡ true → (ended ≡ true) × (index + length seg.payload ≡ total)
  pub opens : seg.header.syn ≡ true → (seg.header.seqno ≡ isn) × (index ≡ 0)

-- What is written later moves no segment.
pub Placed-later :
    (f : ℕ → ℕ) (isn total total' : ℕ) (ended ended' : Bool)
    → total ≤ total'
    → (ended ≡ true → (ended' ≡ true) × (total' ≡ total))
    → (seg : TcpSegment) → Placed f isn total ended seg
    → Placed f isn total' ended' seg
Placed-later f isn total total' ended ended' h same seg p = record {
  index = p.index;
  number = p.number;
  part = p.part;
  inside = omega (arith, p.inside);
  last = λ e. let (a, b) = p.last e in let (c, d) = same a in (c, omega arith);
  opens = p.opens;
}

-- The next number, against the bytes that the sender has read from its stream: after the SYN, and
-- after the FIN.
abbrev pub IsPast : TcpSender → Type 0
IsPast s =
    (s.next_seq_no ≡ s.stream.bytes_read + 1)
    ⊎ ((s.next_seq_no ≡ s.stream.bytes_read + 2)
        × (s.stream.used_size ≡ 0)
        × (s.stream.input_ended ≡ true))

-- The same, or before the SYN.
abbrev pub IsAt : TcpSender → Type 0
IsAt s = ((s.next_seq_no ≡ 0) × (s.stream.bytes_read ≡ 0)) ⊎ IsPast s

-- The sender has been given `total` bytes of `f`.
pub record Sends (f : ℕ → ℕ) (isn total : ℕ) (s : TcpSender) : Type 0 where
  pub valid : IsValid s
  pub same_isn : s.isn ≡ isn
  pub no_error : s.stream.error ≡ false
  pub counted : s.stream.bytes_read + s.stream.used_size ≡ total
  pub part : IsPart f (contents s.stream) s.stream.bytes_read
  pub at : IsAt s
  pub out_placed : All (Placed f isn total s.stream.input_ended) s.segments_out
  pub outstanding_placed : All (Placed f isn total s.stream.input_ended) s.outstanding_segments

-- The reassembler knows of nothing beyond the `total` bytes, nor of another end.
pub record Bounded (total : ℕ) (ended : Bool) (a : StreamReassembler) : Type 0 where
  pub written : a.output.bytes_written ≤ total
  pub covered : (j : ℕ) → covers a.buffer.index_map j ≡ true → j < total
  pub end_known : (e : ℕ) → a.eof_index ≡ some e → (ended ≡ true) × (e ≡ total)
  pub end_reached : a.output.input_ended ≡ true → (ended ≡ true) × (a.output.bytes_written ≡ total)

-- The receiver, before the SYN and after it.
abbrev pub IsIn : (ℕ → ℕ) → ℕ → ℕ → List ℕ → TcpReceiver → Type 0
IsIn f capacity isn taken r =
    ((r ≡ new capacity) × (taken ≡ []))
    ⊎ (Receives f isn r × Delivered f taken r.reassembler × (r.capacity ≡ capacity))
