-- ===== src/ByteStream/History.antt =====
-- Histories of calls on a stream: what the writer had accepted, and what left on the reader's side.
use cs144_labs.Prelude.{
  ℕ, zero, suc, ◌-◌, ◌≤◌, ◌≡◌, refl, sym, ap, ◌∙◌, List, [], ◌∷◌, ◌++◌, arith, length, take,
}
use mathlib.Core.List.{append_assoc, append-nil}
use cs144_labs.Prelude.{take-append-drop}
use cs144_labs.ByteStream.{ByteStream, write, peek_output, pop_output, read, end_input, set_error}
use cs144_labs.ByteStream.Validity.{
  IsValid, write-IsValid, pop_output-IsValid, read-IsValid, end_input-IsValid, set_error-IsValid,
}
use cs144_labs.ByteStream.Refinement.{contents, length-contents}
use cs144_labs.ByteStream.Queue.{write_refines, peek_refines, pop_refines}

-- The calls that change a stream.
pub data Call : Type 0 where
  writes : List ℕ → Call
  reads : ℕ → Call
  pops : ℕ → Call
  ends fails : Call

-- The stream after a call.
pub step : ByteStream → Call → ByteStream
step s (writes bytes) = (write s bytes).0
step s (reads len) = (read s len).0
step s (pops len) = pop_output s len
step s ends = end_input s
step s fails = set_error s

-- The bytes that `write` reports as taken.
pub accepted : ByteStream → Call → List ℕ
accepted s (writes bytes) = take (write s bytes).1 bytes
accepted s _ = []

-- The bytes that a call removes: those of `read`, or those that a `peek_output` before `pop_output`
-- would have shown.
pub removed : ByteStream → Call → List ℕ
removed s (reads len) = (read s len).1
removed s (pops len) = peek_output s len
removed s _ = []

pub run : ByteStream → List Call → ByteStream
run s [] = s
run s (c ∷ cs) = run (step s c) cs

pub all_accepted : ByteStream → List Call → List ℕ
all_accepted s [] = []
all_accepted s (c ∷ cs) = accepted s c ++ all_accepted (step s c) cs

pub all_removed : ByteStream → List Call → List ℕ
all_removed s [] = []
all_removed s (c ∷ cs) = removed s c ++ all_removed (step s c) cs

step-IsValid : {s : ByteStream} (c : Call) → IsValid s → IsValid (step s c)
unfolding step
step-IsValid (writes bytes) v = write-IsValid bytes v
step-IsValid (reads len) v = read-IsValid len v
step-IsValid (pops len) v = pop_output-IsValid len v
step-IsValid ends v = end_input-IsValid v
step-IsValid fails v = set_error-IsValid v

take-length-take : (n : ℕ) (xs : List ℕ) → take (length (take n xs)) xs ≡ take n xs
take-length-take zero xs = refl
take-length-take (suc n) [] = refl
take-length-take (suc n) (x ∷ xs) = ap (◌∷◌ x) (take-length-take n xs)

pub take-count :
    {s : ByteStream} (bytes : List ℕ)
    → IsValid s
    → take (write s bytes).1 bytes ≡ take (s.capacity - length (contents s)) bytes
take-count {s} bytes v =
    rw ((write_refines bytes v).1) (take-length-take (s.capacity - length (contents s)) bytes)

pub removed-append :
    {s : ByteStream} (len : ℕ)
    → IsValid s
    → contents s ≡ peek_output s len ++ contents (pop_output s len)
removed-append {s} len v = rw (peek_refines len v, pop_refines len v, take-append-drop)

-- One call puts what it accepts behind the contents, and takes what it removes from the front.
step_fifo :
    {s : ByteStream} (c : Call)
    → IsValid s
    → contents s ++ accepted s c ≡ removed s c ++ contents (step s c)
unfolding step accepted removed read
step_fifo {s} (writes bytes) v = rw (take-count bytes v) (sym (write_refines bytes v).0)
step_fifo {s} (reads len) v = append-nil (contents s) ∙ removed-append len v
step_fifo {s} (pops len) v = append-nil (contents s) ∙ removed-append len v
step_fifo {s} ends v = append-nil (contents s)
step_fifo {s} fails v = append-nil (contents s)

capacity-step : (s : ByteStream) (c : Call) → (step s c).capacity ≡ s.capacity
unfolding step write read pop_output
capacity-step s (writes bytes) = ground arith
capacity-step s (reads len) = refl
capacity-step s (pops len) = refl
capacity-step s ends = refl
capacity-step s fails = refl

capacity-run : (cs : List Call) (s : ByteStream) → (run s cs).capacity ≡ s.capacity
unfolding run
capacity-run [] s = refl
capacity-run (c ∷ cs) s = capacity-run cs (step s c) ∙ capacity-step s c

run-IsValid : (cs : List Call) {s : ByteStream} → IsValid s → IsValid (run s cs)
unfolding run
run-IsValid [] v = v
run-IsValid (c ∷ cs) {s} v = run-IsValid cs {s = step s c} (step-IsValid c v)

run_order :
    (cs : List Call) {s : ByteStream}
    → IsValid s
    → contents s ++ all_accepted s cs ≡ all_removed s cs ++ contents (run s cs)
unfolding run all_accepted all_removed
run_order [] {s} v = append-nil (contents s)
run_order (c ∷ cs) {s} v =
    sym (append_assoc (contents s) (accepted s c) (all_accepted (step s c) cs))
    ∙ ap (λ t. t ++ all_accepted (step s c) cs) (step_fifo c v)
    ∙ append_assoc (removed s c) (contents (step s c)) (all_accepted (step s c) cs)
    ∙ ap (◌++◌ (removed s c)) (run_order cs {s = step s c} (step-IsValid c v))
    ∙ sym (append_assoc (removed s c) (all_removed (step s c) cs) (contents (run (step s c) cs)))

-- Whatever the calls, no byte of a valid stream is lost, made up or moved: what it held and what it
-- accepted since, in order, is what left it and what it still holds. The stream stays valid, and
-- never holds more bytes than the capacity that it began with.
pub run_fifo :
    (cs : List Call) {s : ByteStream}
    → IsValid s
    → (contents s ++ all_accepted s cs ≡ all_removed s cs ++ contents (run s cs))
      × IsValid (run s cs)
      × (length (contents (run s cs)) ≤ s.capacity)
run_fifo cs {s} v =
    let valid = run-IsValid cs v in
    (run_order cs v, valid, omega (arith, length-contents (run s cs), capacity-run cs s))
