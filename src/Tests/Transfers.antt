-- ===== src/Tests/Transfers.antt =====
-- Transfers at concrete inputs.
use cs144_labs.Prelude.{◌≡◌, ◌⊎◌, true, false, some, List, [], ◌∷◌, ◌++◌, arith, take}
use cs144_labs.ByteStream.Refinement.{contents}
use cs144_labs.Transfer.{
  Link, start, Action, writes, ends, fills, sends, acks, delivers, reads, run,
}
use cs144_labs.Transfer.Running.{run-in_order}

-- Three bytes in a segment that overtakes the SYN, and arrives again before and after the FIN.
abbrev overtaking : List Action
overtaking =
    writes (1 ∷ 2 ∷ 3 ∷ [])
    ∷ fills
    ∷ sends
    ∷ acks 8 10
    ∷ fills
    ∷ sends
    ∷ delivers 1
    ∷ delivers 0
    ∷ delivers 1
    ∷ reads 2
    ∷ ends
    ∷ fills
    ∷ sends
    ∷ delivers 1
    ∷ delivers 2
    ∷ delivers 1
    ∷ []

run-in_order_example :
    (l : Link) × (run (start 4 4 100 7) overtaking ≡ some l)
    × (l.taken ++ contents l.receiver.reassembler.output
        ≡ take l.receiver.reassembler.output.bytes_written l.given)
    × ((l.receiver.reassembler.output.input_ended ≡ false)
        ⊎ ((l.sender.stream.input_ended ≡ true)
            × (l.taken ++ contents l.receiver.reassembler.output ≡ l.given)))
run-in_order_example =
    run-in_order 4 4 100 7 overtaking (omega arith) (omega arith) (omega arith) (omega arith)
      (omega arith) (omega arith)
