-- ===== src/Receiver.antt =====
-- `TCPReceiver` of libsponge/tcp_receiver.hh and tcp_receiver.cc.
pub mod Validity
pub mod Receiving
use cs144_labs.Prelude.{
  ℕ, ◌-◌, Bool, true, false, not, Option, none, some, if◌then◌else◌, ltb, add64, sub64,
}
use cs144_labs.Wrapping.{advance, wrap, unwrap}
use cs144_labs.Segment.{TcpSegment}
use cs144_labs.Reassembler
use cs144_labs.Reassembler.{StreamReassembler}

pub record TcpReceiver : Type 0 where
  pub reassembler : StreamReassembler
  pub capacity : ℕ
  pub isn : Option ℕ
  pub is_listen : Bool

unfoldable pub new : ℕ → TcpReceiver
new capacity = record {
  reassembler = Reassembler.new capacity;
  capacity = capacity;
  isn = none;
  is_listen = true;
}

-- `TCPReceiver::State`
pub data State : Type 0 where
  error listen syn_recv fin_recv : State

unfoldable pub state : TcpReceiver → State
state r =
    if r.reassembler.output.error
    then error
    else (if r.is_listen
        then listen
        else (if r.reassembler.output.input_ended then fin_recv else syn_recv))

abbrev pub is_listening : State → Bool
is_listening listen = true
is_listening _ = false

abbrev pub is_syn_recv : State → Bool
is_syn_recv syn_recv = true
is_syn_recv _ = false

abbrev pub is_fin_recv : State → Bool
is_fin_recv fin_recv = true
is_fin_recv _ = false

-- The branches of `abs_ack_no`, by the state.
unfoldable pub abs_ack_of : State → ℕ → ℕ
abs_ack_of syn_recv written = add64 written 1
abs_ack_of fin_recv written = add64 written 2
abs_ack_of listen written = 0
abs_ack_of error written = 0

unfoldable pub abs_ack_no : TcpReceiver → ℕ
abs_ack_no r = abs_ack_of (state r) r.reassembler.output.bytes_written

-- `isn_.value()` throws where it is empty; `ackno` is asked only if a SYN was received.
abbrev pub wrap_with : Option ℕ → ℕ → Option ℕ
wrap_with none n = none
wrap_with (some isn) n = some (wrap n isn)

-- The branches of `ackno`, by the state.
unfoldable pub ackno_of : State → Option ℕ → ℕ → Option ℕ
ackno_of error isn n = none
ackno_of listen isn n = none
ackno_of syn_recv isn n = wrap_with isn n
ackno_of fin_recv isn n = wrap_with isn n

unfoldable pub ackno : TcpReceiver → Option ℕ
ackno r = ackno_of (state r) r.isn (abs_ack_no r)

abbrev pub window_size : TcpReceiver → ℕ
window_size r = sub64 r.capacity r.reassembler.output.used_size

abbrev pub unassembled_bytes : TcpReceiver → ℕ
unassembled_bytes r = Reassembler.unassembled_bytes r.reassembler

-- `push_substring` at the stream index of the absolute sequence number, if it has one.
unfoldable pub push_at : TcpReceiver → TcpSegment → ℕ → Option TcpReceiver
push_at r seg abs_seq_no =
    let pushed : Option TcpReceiver =
      elim (Reassembler.push_substring r.reassembler seg.payload (sub64 abs_seq_no 1)
        seg.header.fin) [ none ↦ none | some a ↦ some (record r { reassembler = a }) ] in
    if ltb 0 abs_seq_no then pushed else some r

-- The payload and the FIN, of a segment that is not skipped.
unfoldable pub deliver : TcpReceiver → TcpSegment → Option ℕ → Option TcpReceiver
deliver r seg none = none
deliver r seg (some isn) =
    push_at r seg
      (unwrap (advance seg.header.seqno (if seg.header.syn then 1 else 0)) isn (abs_ack_no r))

-- The receiver after the SYN that it was listening for.
abbrev pub open_with : TcpReceiver → ℕ → TcpReceiver
open_with r seqno = record r { isn = some seqno; is_listen = false }

-- `none` is a failed assertion of the reassembler, or the exception of an empty `isn_`.
unfoldable pub segment_received : TcpReceiver → TcpSegment → Option TcpReceiver
segment_received r seg =
    let opened = open_with r seg.header.seqno in
    if is_listening (state r)
    then (if not seg.header.syn then some r else deliver opened seg opened.isn)
    else deliver r seg r.isn
