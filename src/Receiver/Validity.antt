-- ===== src/Receiver/Validity.antt =====
-- The invariant of `TCPReceiver` after the SYN, and what it tells the peer.
use cs144_labs.Prelude.{
  ℕ, ◌+◌, ◌-◌, ◌^◌, ◌<◌, ◌≡◌, refl, ap, ap₂, ◌∙◌, Bool, true, false, some, arith, if◌then◌else◌,
  length,
}
use cs144_labs.ByteStream.Refinement.{contents, length-contents}
use cs144_labs.Wrapping.{wrap}
use cs144_labs.Reassembler.Intervals.{covers}
use cs144_labs.Reassembler.Assembly.{Assembles}
use cs144_labs.Receiver.{
  TcpReceiver, syn_recv, fin_recv, state, abs_ack_of, abs_ack_no, ackno, ackno_of, window_size,
}

-- The receiver has had the SYN with number `isn`, and bytes of `stream` only.
pub record Receives (stream : ℕ → ℕ) (isn : ℕ) (r : TcpReceiver) : Type 0 where
  pub assembles : Assembles stream r.reassembler
  pub same_capacity : r.capacity ≡ r.reassembler.capacity
  pub isn_known : r.isn ≡ some isn
  pub isn_word : isn < 2 ^ 32
  pub not_listening : r.is_listen ≡ false
  pub no_error : r.reassembler.output.error ≡ false

-- The numbers that the FIN takes.
abbrev pub fin_count : Bool → ℕ
fin_count true = 1
fin_count false = 0

pub state-Receives :
    {stream : ℕ → ℕ} {isn : ℕ} {r : TcpReceiver}
    → Receives stream isn r
    → state r ≡ (if r.reassembler.output.input_ended then fin_recv else syn_recv)
unfolding state
state-Receives {r = r} v = rw (v.no_error, v.not_listening)

pub abs_ack_no-Receives :
    {stream : ℕ → ℕ} {isn : ℕ} {r : TcpReceiver}
    → Receives stream isn r
    → r.reassembler.output.bytes_written + 2 < 2 ^ 64
    → abs_ack_no r
      ≡ r.reassembler.output.bytes_written + 1 + fin_count r.reassembler.output.input_ended
unfolding abs_ack_no abs_ack_of
abs_ack_no-Receives {r = r} v w = rw (state-Receives v) (by_end r.reassembler.output.input_ended)
  where
    by_end :
        (b : Bool)
        → abs_ack_of (if b then fin_recv else syn_recv) r.reassembler.output.bytes_written
          ≡ r.reassembler.output.bytes_written + 1 + fin_count b
    by_end true = omega arith
    by_end false = omega arith

pub ackno-Receives :
    {stream : ℕ → ℕ} {isn : ℕ} {r : TcpReceiver}
    → Receives stream isn r
    → ackno r ≡ some (wrap (abs_ack_no r) isn)
unfolding ackno ackno_of
ackno-Receives {isn = isn} {r = r} v =
    ap₂ (λ st o. ackno_of st o (abs_ack_no r)) (state-Receives v) v.isn_known
    ∙ by_end r.reassembler.output.input_ended
  where
    by_end :
        (b : Bool)
        → ackno_of (if b then fin_recv else syn_recv) (some isn) (abs_ack_no r)
          ≡ some (wrap (abs_ack_no r) isn)
    by_end true = refl
    by_end false = refl

-- What is acknowledged is the sequence number after the SYN, the bytes that are written, and the FIN
-- once the stream has ended; the window is the room of the output. The byte at the acknowledged
-- number has not been received.
pub advertised :
    {stream : ℕ → ℕ} {isn : ℕ} {r : TcpReceiver}
    → Receives stream isn r
    → r.reassembler.output.bytes_written + 2 < 2 ^ 64
    → (ackno r
        ≡ some (
            wrap
              (r.reassembler.output.bytes_written + 1 + fin_count r.reassembler.output.input_ended)
              isn))
      × (window_size r ≡ r.capacity - length (contents r.reassembler.output))
      × (covers r.reassembler.buffer.index_map r.reassembler.output.bytes_written ≡ false)
advertised {isn = isn} {r = r} v w = (
  ackno-Receives v ∙ ap (λ t. some (wrap t isn)) (abs_ack_no-Receives v w),
  omega (
    arith,
    length-contents r.reassembler.output,
    v.assembles.same_output,
    v.assembles.output_valid.used_in,
    v.assembles.output_valid.small,
  ),
  v.assembles.waiting,
)
