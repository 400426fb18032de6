-- ===== src/Tests/Connections.antt =====
-- Runs of the connection.
use cs144_labs.Prelude.{false, ◌∷◌}
use cs144_labs.Prelude.{
  ◌≤◌, ◌<◌, ◌-◌, ◌^◌, ◌≡◌, refl, not, ◌&&◌, none, some, [], ◌++◌, arith, length, add64,
}
use cs144_labs.Config.{TcpConfig, max_retx_attempts}
use cs144_labs.Segment.{TcpSegment}
use mathlib.Core.List.{map}
use cs144_labs.Wrapping.{wrap}
use cs144_labs.ByteStream
use cs144_labs.ByteStream.{ByteStream}
use cs144_labs.Reassembler
use cs144_labs.Receiver
use cs144_labs.Receiver.{TcpReceiver, ackno, window_size, open_with}
use cs144_labs.Receiver.Receiving.{Received}
use cs144_labs.Sender
use cs144_labs.Sender.{
  TcpSender, state, closed, fill_window, ack_received, tick, is_empty, consecutive_retransmissions,
}
use cs144_labs.Sender.Validity.{IsValid, new-IsValid}
use cs144_labs.Sender.Filling.{Filled}
use cs144_labs.Connection
use cs144_labs.Connection.{is_ignored}
use cs144_labs.Connection.{
  TcpConnection, with_ack, with_rst, enqueue_segments, is_finished, fill_and_enqueue, destroy,
  is_ignored,
}
use cs144_labs.Connection.Answering.{Flushed, due, Answered, acknowledging}
use cs144_labs.Connection.Handling.{segment_received-Flushed}
use cs144_labs.Connection.Ending.{hears, ticks, writes, run, Inactive, rst_ends}
use cs144_labs.Connection.Ticking.{Aborted, tick_lem}
use cs144_labs.State.{OfficialState, of_official}
use cs144_labs.State.Handshake.{Sends, taken, handshake}
use cs144_labs.State.Official.{state_of, of_official_inj}
use cs144_labs.Tests.Endpoints.{
  seven, first_byte, rst_100, open_receiver, first_byte-IsPart, first_number_101, open-Receives,
}

abbrev small_config : TcpConfig
small_config = record {
  rt_timeout = 1000;
  recv_capacity = 8;
  send_capacity = 100;
  fixed_isn = some 15;
}

abbrev fresh : TcpConnection
fresh = Connection.new small_config 0

fresh-IsValid : IsValid fresh.sender
unfolding Connection.new
fresh-IsValid = new-IsValid 100 1000 15 (omega arith) (omega arith) (omega arith)

-- A connection whose receiver has had a SYN with number 100.
abbrev opened : TcpConnection
opened = record fresh { receiver = open_receiver }

segment_received-Flushed_example :
    (c' : TcpConnection) × (filled answered : TcpSender) × (Connection.segment_received opened
        first_byte
      ≡ some c')
    × Received seven 100 opened.receiver 0
        (length first_byte.payload)
        first_byte.header.fin
        c'.receiver
    × (fill_window (ack_received opened.sender 16 500) ≡ some filled)
    × Filled (ack_received opened.sender 16 500) filled
    × Answered (due c'.receiver 100 first_byte) filled answered
    × Flushed opened.segments_out answered c'
    × (c'.segments_out
        ≡ opened.segments_out
          ++ map
              (acknowledging (wrap (Receiver.abs_ack_no c'.receiver) 100) (window_size c'.receiver))
              answered.segments_out)
    × (c'.ms_since_last_recv ≡ 0)
unfolding Connection.new Receiver.new Reassembler.new ByteStream.new Sender.new
segment_received-Flushed_example =
    segment_received-Flushed seven 100 opened first_byte 0 open-Receives fresh-IsValid refl
      (omega arith) (omega arith) (omega arith) refl (omega arith) first_number_101 (omega arith)
      (omega arith) first_byte-IsPart (omega arith)

rst_taken : is_ignored opened rst_100 ≡ false
unfolding is_ignored Connection.new Receiver.new Receiver.state Reassembler.new ByteStream.new
rst_taken = refl

rst_ends_example :
    (c' : TcpConnection) × (Connection.segment_received opened rst_100 ≡ some c')
    × (Receiver.state c'.receiver ≡ Receiver.State.error)
    × (Sender.state c'.sender ≡ Sender.State.error)
    × (c'.segments_out ≡ opened.segments_out)
    × Inactive (run c' (hears first_byte ∷ ticks 1000 ∷ writes (1 ∷ 2 ∷ []) ∷ []))
rst_ends_example =
    rst_ends opened rst_100 (hears first_byte ∷ ticks 1000 ∷ writes (1 ∷ 2 ∷ []) ∷ []) rst_taken
      refl

tick_lem_example :
    (s : TcpSender) × (tick fresh.sender 1000 ≡ some s)
    × ((c' : TcpConnection) × (Connection.tick fresh 1000 ≡ some c')
        × (consecutive_retransmissions s ≤ max_retx_attempts
            → Flushed fresh.segments_out s c'
              × (c'.receiver ≡ fresh.receiver)
              × (c'.active ≡ (
                  fresh.active
                  && not (
                      is_finished (record fresh {
                        ms_since_last_recv = add64 fresh.ms_since_last_recv 1000;
                        sender = s;
                      })))))
        × (max_retx_attempts < consecutive_retransmissions s → Aborted fresh c'))
unfolding Connection.new
tick_lem_example = tick_lem fresh 1000 fresh-IsValid refl

of_official_inj_example : OfficialState.listen ≡ OfficialState.listen
of_official_inj_example = of_official_inj OfficialState.listen OfficialState.listen refl

-- A peer with other capacities, that draws its number.
abbrev other_config : TcpConfig
other_config = record {
  rt_timeout = 500;
  recv_capacity = 70000;
  send_capacity = 20;
  fixed_isn = none;
}

handshake_example :
    (c c' d d' : TcpConnection) × (syn syn_ack ack : TcpSegment) × Sends
      (Connection.connect (Connection.new small_config 0))
      c
      syn
      OfficialState.syn_sent
    × Sends
        (Connection.segment_received (Connection.new other_config (2 ^ 32 - 1)) syn)
        d
        syn_ack
        OfficialState.syn_rcvd
    × Sends (Connection.segment_received (taken c) syn_ack) c' ack OfficialState.established
    × (Connection.segment_received (taken d) ack ≡ some d')
    × (d'.segments_out ≡ [])
    × (state_of d' ≡ of_official OfficialState.established)
handshake_example = handshake small_config other_config 0 (2 ^ 32 - 1) (omega arith) (omega arith)
