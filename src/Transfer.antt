-- ===== src/Transfer.antt =====
-- A transfer: `TCPSender` (libsponge/tcp_sender.cc), an unreliable network, and `TCPReceiver`
-- (libsponge/tcp_receiver.cc) with its `StreamReassembler`. The network is a specification, not code of
-- the repository: it keeps every segment that was sent, and may deliver each one never, late, out of
-- order, or many times; the acknowledgments that the sender gets are arbitrary.
pub mod Marking
pub mod Rounds
pub mod Sending
pub mod Writing
pub mod Calling
pub mod Bounding
pub mod Receiving
pub mod Acting
pub mod Delivering
pub mod Running
use cs144_labs.Prelude.{
  ℕ, zero, suc, ◌+◌, ◌%◌, ◌^◌, Bool, Option, none, some, List, [], ◌∷◌, ◌++◌, leb, if◌then◌else◌,
  length, take,
}
use cs144_labs.ByteStream.{write, end_input}
use cs144_labs.Wrapping.{unwrap}
use cs144_labs.Segment.{TcpSegment}
use cs144_labs.Sender
use cs144_labs.Sender.{TcpSender, fill_window, ack_received, tick}
use cs144_labs.Receiver
use cs144_labs.Receiver.{TcpReceiver, abs_ack_no, window_size, segment_received}
use cs144_labs.Reassembler.Delivery.{read_output}
use cs144_labs.ByteStream.{read}
use cs144_labs.Receiver.Receiving.{first_number}

-- `given` is what the sender's stream has accepted from its writer, `taken` what the reader has had
-- from the receiver's stream, `wire` all that was ever sent.
pub record Link : Type 0 where
  pub sender : TcpSender
  pub receiver : TcpReceiver
  pub wire : List TcpSegment
  pub given : List ℕ
  pub taken : List ℕ

-- A sender and a receiver that have just been made.
abbrev pub start : ℕ → ℕ → ℕ → ℕ → Link
start send_capacity receive_capacity timeout isn = record {
  sender = Sender.new send_capacity timeout isn;
  receiver = Receiver.new receive_capacity;
  wire = [];
  given = [];
  taken = [];
}

-- What can happen: the writer writes bytes or ends its stream; the sender fills the window, gets an
-- acknowledgment, whatever its numbers, or hears of the time; its queue of segments goes out; the
-- network delivers the segment that was sent in place `n`; the reader reads.
pub data Action : Type 0 where
  writes : List ℕ → Action
  ends fills sends : Action
  acks : ℕ → ℕ → Action
  ticks delivers reads : ℕ → Action

-- The entry of a list in place `n`.
abbrev pub nth : List TcpSegment → ℕ → Option TcpSegment
nth [] n = none
nth (seg ∷ segs) zero = some seg
nth (seg ∷ segs) (suc n) = nth segs n

-- Whether the payload ends inside the window that the receiver advertises.
abbrev pub ends_in_window : TcpReceiver → TcpSegment → Option ℕ → Bool
ends_in_window r seg none = leb (length seg.payload) r.capacity
ends_in_window r seg (some isn) =
    leb (unwrap (first_number seg) isn (abs_ack_no r) + length seg.payload)
      (r.reassembler.output.bytes_written + 1 + window_size r)

-- The arrival of a segment. One that ends beyond the window counts as lost.
unfoldable pub arrive : Link → Option TcpSegment → Option Link
arrive l none = some l
arrive l (some seg) =
    let received : Option Link = elim (segment_received l.receiver seg) [
      | none ↦ none
      | some r ↦ some (record l { receiver = r })
    ] in
    if ends_in_window l.receiver seg l.receiver.isn then received else some l

-- `none` is a failed assertion or an exception of the code. Nothing is written once the writer has
-- ended its stream, which the code leaves to the writer.
unfoldable pub perform : Link → Action → Option Link
unfolding arrive
perform l (writes bytes) =
    let (stream, count) = write l.sender.stream bytes in
    if l.sender.stream.input_ended
    then some l
    else some (record l {
      sender = record l.sender { stream = stream };
      given = l.given ++ take count bytes;
    })
perform l ends = some (record l { sender = record l.sender { stream = end_input l.sender.stream } })
perform l fills = elim (fill_window l.sender) [
  | none ↦ none
  | some s ↦ some (record l { sender = s })
]
perform l (acks ackno window) =
    some (record l { sender = ack_received l.sender ackno (window % 2 ^ 16) })
perform l (ticks ms) = elim (tick l.sender ms) [
  | none ↦ none
  | some s ↦ some (record l { sender = s })
]
perform l sends = some (record l {
  sender = record l.sender { segments_out = [] };
  wire = l.wire ++ l.sender.segments_out;
})
perform l (delivers n) = arrive l (nth l.wire n)
perform l (reads len) = some (record l {
  receiver = record l.receiver { reassembler = read_output l.receiver.reassembler len };
  taken = l.taken ++ (read l.receiver.reassembler.output len).1;
})

unfoldable pub run : Link → List Action → Option Link
run l [] = some l
run l (a ∷ actions) = elim (perform l a) [ none ↦ none | some l' ↦ run l' actions ]

-- How many bytes an action offers to the sender's stream, and how many all of them do.
abbrev pub offered : Action → ℕ
offered (writes bytes) = length bytes
offered _ = 0

abbrev pub all_offered : List Action → ℕ
all_offered [] = 0
all_offered (a ∷ actions) = offered a + all_offered actions
