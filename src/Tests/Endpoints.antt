-- ===== src/Tests/Endpoints.antt =====
-- Runs of the sender, the receiver and the connection.
use cs144_labs.Prelude.{
  ℕ, zero, suc, ◌+◌, ◌-◌, ◌^◌, ◌≤◌, ◌<◌, ◌≡◌, ◌⊎◌, refl, true, false, some, [], ◌∷◌, arith, length,
}
use cs144_labs.Wrapping.{wrap, unwrap}
use cs144_labs.Segment.{TcpSegment, new_segment, new_header}
use cs144_labs.ByteStream
use cs144_labs.ByteStream.{ByteStream}
use cs144_labs.ByteStream.Refinement.{contents}
use cs144_labs.Reassembler
use cs144_labs.Reassembler.Buffer.Holding.{IsPart}
use cs144_labs.Reassembler.Window.{Pushed}
use cs144_labs.Reassembler.Intervals.{covers}
use cs144_labs.Receiver
use cs144_labs.Receiver.{TcpReceiver, ackno, window_size, open_with}
use cs144_labs.Receiver.Validity.{Receives, fin_count, advertised}
use cs144_labs.Receiver.Receiving.{
  Received, first_number, segment_received-Received, syn_received, open_with-Receives,
}
use cs144_labs.Sender
use cs144_labs.Sender.{
  TcpSender, state, closed, fill_window, ack_received, tick, is_empty, consecutive_retransmissions,
}
use cs144_labs.Sender.Clock.{expired}
use cs144_labs.Sender.Validity.{IsValid, new-IsValid}
use cs144_labs.Sender.Filling.{Filled, SynSent, IsDone, fill_window-Filled}
use cs144_labs.Sender.Acking.{Accepted, ack_received_cases}
use cs144_labs.Sender.Ticking.{Retransmitted, later, tick_cases}

abbrev pub seven : ℕ → ℕ
seven j = 7

-- A segment after the SYN with number 100, that carries the first byte of the stream.
abbrev pub first_byte : TcpSegment
first_byte = record {
  header = record new_header { seqno = 101; ack = true; ackno = 16; win = 500 };
  payload = 7 ∷ [];
}

abbrev pub syn_100 : TcpSegment
syn_100 = record new_segment { header = record new_header { syn = true; seqno = 100 } }

abbrev pub rst_100 : TcpSegment
rst_100 = record new_segment { header = record new_header { rst = true; seqno = 100 } }

pub first_byte-IsPart : IsPart seven (7 ∷ []) 0
first_byte-IsPart zero h = refl
first_byte-IsPart (suc k) h = absurd (omega arith)

nothing-IsPart : IsPart seven [] 0
nothing-IsPart k h = absurd (omega arith)

abbrev pub small_receiver : TcpReceiver
small_receiver = Receiver.new 8

abbrev pub open_receiver : TcpReceiver
open_receiver = open_with small_receiver 100

pub open-Receives : Receives seven 100 open_receiver
open-Receives = open_with-Receives seven 8 100 (omega arith) (omega arith) (omega arith)

advertised_example :
    (ackno open_receiver
      ≡ some (
          wrap
            (open_receiver.reassembler.output.bytes_written
              + 1
              + fin_count open_receiver.reassembler.output.input_ended)
            100))
    × (window_size open_receiver
        ≡ open_receiver.capacity - length (contents open_receiver.reassembler.output))
    × (covers open_receiver.reassembler.buffer.index_map
          open_receiver.reassembler.output.bytes_written
        ≡ false)
unfolding Receiver.new Reassembler.new ByteStream.new
advertised_example = advertised open-Receives (omega arith)

pub first_number_101 : first_number first_byte ≡ wrap (0 + 1) 100
unfolding wrap
first_number_101 = refl

segment_received-Received_example :
    (r' : TcpReceiver) × (Receiver.segment_received open_receiver first_byte ≡ some r')
    × Received seven 100 open_receiver 0 (length first_byte.payload) first_byte.header.fin r'
unfolding Receiver.new Reassembler.new ByteStream.new
segment_received-Received_example =
    segment_received-Received seven 100 open_receiver first_byte 0 open-Receives (omega arith)
      (omega arith) first_number_101 (omega arith) (omega arith) first_byte-IsPart (omega arith)

syn_received_example :
    (r' : TcpReceiver) × (Receiver.segment_received small_receiver syn_100 ≡ some r')
    × Receives seven syn_100.header.seqno r'
    × Pushed seven small_receiver.reassembler 0
        (length syn_100.payload)
        syn_100.header.fin
        r'.reassembler
syn_received_example =
    syn_received seven 8 syn_100 (omega arith) (omega arith) (omega arith) refl nothing-IsPart
      (omega arith)

abbrev small_sender : TcpSender
small_sender = Sender.new 100 1000 15

small-IsValid : IsValid small_sender
small-IsValid = new-IsValid 100 1000 15 (omega arith) (omega arith) (omega arith)

-- The sender after its SYN.
after_syn :
    (s' : TcpSender) × (fill_window small_sender ≡ some s')
    × Filled small_sender s'
    × (((state small_sender ≡ closed) × SynSent small_sender s') ⊎ IsDone s')
unfolding Sender.new
after_syn = fill_window-Filled small_sender small-IsValid (omega arith)

fill_window-Filled_example :
    (s' : TcpSender) × (fill_window small_sender ≡ some s')
    × Filled small_sender s'
    × (((state small_sender ≡ closed) × SynSent small_sender s') ⊎ IsDone s')
unfolding Sender.new
fill_window-Filled_example = fill_window-Filled small_sender small-IsValid (omega arith)

last_ack_bound : after_syn.0.last_ack_no + 2 ^ 16 < 2 ^ 63
unfolding Sender.new
last_ack_bound = omega (arith, after_syn.2.same_ack)

ack_received_cases_example :
    (after_syn.0.last_ack_no < unwrap 16 after_syn.0.isn after_syn.0.last_ack_no
      → unwrap 16 after_syn.0.isn after_syn.0.last_ack_no ≤ after_syn.0.next_seq_no
      → Accepted after_syn.0
          (unwrap 16 after_syn.0.isn after_syn.0.last_ack_no)
          500
          (ack_received after_syn.0 16 500))
    × (unwrap 16 after_syn.0.isn after_syn.0.last_ack_no ≡ after_syn.0.last_ack_no
        → ack_received after_syn.0 16 500 ≡ record after_syn.0 { window_size = 500 })
    × (unwrap 16 after_syn.0.isn after_syn.0.last_ack_no < after_syn.0.last_ack_no
        → ack_received after_syn.0 16 500 ≡ after_syn.0)
    × (after_syn.0.next_seq_no < unwrap 16 after_syn.0.isn after_syn.0.last_ack_no
        → ack_received after_syn.0 16 500 ≡ after_syn.0)
ack_received_cases_example =
    ack_received_cases after_syn.0 16 500 after_syn.2.valid last_ack_bound (omega arith)

tick_cases_example :
    (s' : TcpSender) × (tick after_syn.0 1000 ≡ some s')
    × IsValid s'
    × (((expired (later after_syn.0 1000).timer ≡ true) × Retransmitted (later after_syn.0 1000) s')
        ⊎ ((expired (later after_syn.0 1000).timer ≡ false) × (s' ≡ later after_syn.0 1000)))
tick_cases_example = tick_cases after_syn.0 1000 after_syn.2.valid
