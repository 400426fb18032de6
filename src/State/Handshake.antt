-- ===== src/State/Handshake.antt =====
-- The three-way handshake of two connections, in official states.
use cs144_labs.Prelude.{ℕ, ◌^◌, ◌<◌, ◌≡◌, refl, Option, some, List, [], ◌∷◌}
use cs144_labs.ByteStream
use cs144_labs.Reassembler
use cs144_labs.Config.{TcpConfig}
use cs144_labs.Segment.{TcpSegment}
use cs144_labs.Receiver
use cs144_labs.Sender
use cs144_labs.Connection.{TcpConnection, new, isn_of, connect, segment_received}
use cs144_labs.Connection.Opening.{syn_sent, syn_acked}
use cs144_labs.Connection.Handshake.{
  stamped, syn_of, ack_of, connecting, answering, open_connection, connect_lem, answer_lem,
  complete_lem, establish_lem,
}
use cs144_labs.State.{OfficialState, of_official, receiver_summary, sender_summary, summarize}
use cs144_labs.State.Official.{state_of}

-- The call succeeded, left one segment to be sent, and the connection in this official state.
abbrev pub Sends : Option TcpConnection → TcpConnection → TcpSegment → OfficialState → Type 0
Sends call c seg st = (call ≡ some c) × (c.segments_out ≡ seg ∷ []) × (state_of c ≡ of_official st)

-- The connection after what waits to be sent was taken.
abbrev pub taken : TcpConnection → TcpConnection
taken c = record c { segments_out = [] }

module _ (cfg : TcpConfig) (random_isn : ℕ) where
  pub state_of-connecting :
      state_of (connecting cfg random_isn) ≡ of_official OfficialState.syn_sent
  unfolding summarize of_official receiver_summary sender_summary Receiver.state Sender.state
      syn_sent Receiver.new Reassembler.new ByteStream.new
  state_of-connecting = refl

  state_of-answering :
      (isn : ℕ) → state_of (answering cfg random_isn isn) ≡ of_official OfficialState.syn_rcvd
  unfolding summarize of_official receiver_summary sender_summary Receiver.state Sender.state
      syn_sent Receiver.new Reassembler.new ByteStream.new
  state_of-answering isn = refl

  state_of-open_connection :
      (isn capacity : ℕ) (out : List TcpSegment)
      → state_of (open_connection cfg random_isn isn capacity out)
        ≡ of_official OfficialState.established
  unfolding summarize of_official receiver_summary sender_summary Receiver.state Sender.state
      syn_acked Receiver.new Reassembler.new ByteStream.new
  state_of-open_connection isn capacity out = refl

-- Two new connections whose initial numbers are 32-bit words, of which one connects and each then hears
-- what the other sent, go through SYN_SENT and SYN_RCVD; each sends one segment for each one it hears,
-- but the listener nothing for the last; and both end in ESTABLISHED.
pub handshake :
    (cfg cfg' : TcpConfig) (random_isn random_isn' : ℕ)
    → isn_of cfg.fixed_isn random_isn < 2 ^ 32
    → isn_of cfg'.fixed_isn random_isn' < 2 ^ 32
    → (c c' d d' : TcpConnection) × (syn syn_ack ack : TcpSegment) × Sends
        (connect (new cfg random_isn))
        c
        syn
        OfficialState.syn_sent
      × Sends (segment_received (new cfg' random_isn') syn) d syn_ack OfficialState.syn_rcvd
      × Sends (segment_received (taken c) syn_ack) c' ack OfficialState.established
      × (segment_received (taken d) ack ≡ some d')
      × (d'.segments_out ≡ [])
      × (state_of d' ≡ of_official OfficialState.established)
handshake cfg cfg' random_isn random_isn' h h' =
    let isn = isn_of cfg.fixed_isn random_isn in
    let isn' = isn_of cfg'.fixed_isn random_isn' in
    (
      connecting cfg random_isn,
      open_connection cfg random_isn isn' cfg'.recv_capacity
          (stamped cfg.recv_capacity isn' (ack_of isn) ∷ []),
      answering cfg' random_isn' isn,
      open_connection cfg' random_isn' isn cfg.recv_capacity [],
      syn_of isn,
      stamped cfg'.recv_capacity isn (syn_of isn'),
      stamped cfg.recv_capacity isn' (ack_of isn),
      (connect_lem cfg random_isn, refl, state_of-connecting cfg random_isn),
      (answer_lem cfg' random_isn' isn h, refl, state_of-answering cfg' random_isn' isn),
      (
        complete_lem cfg random_isn isn' cfg'.recv_capacity h h',
        refl,
        state_of-open_connection cfg random_isn isn' cfg'.recv_capacity
            (stamped cfg.recv_capacity isn' (ack_of isn) ∷ []),
      ),
      establish_lem cfg' random_isn' isn cfg.recv_capacity h' h,
      refl,
      state_of-open_connection cfg' random_isn' isn cfg.recv_capacity [],
    )
