-- ===== src/State.antt =====
-- `TCPState` of libsponge/tcp_helpers/tcp_state.hh and tcp_state.cc. A summary string is one
-- constructor; the two summaries of an error are the same string, and no others are.
pub mod Official
pub mod Handshake
use cs144_labs.Prelude.{ℕ, Bool, true, false, not, ◌&&◌, ◌==◌}
use cs144_labs.Receiver
use cs144_labs.Receiver.{TcpReceiver}
use cs144_labs.Sender
use cs144_labs.Sender.{TcpSender}

pub data ReceiverSummary : Type 0 where
  error listen syn_recv fin_recv : ReceiverSummary

pub data SenderSummary : Type 0 where
  error closed syn_sent syn_acked fin_sent fin_acked : SenderSummary

pub record TcpState : Type 0 where
  pub sender : SenderSummary
  pub receiver : ReceiverSummary
  pub active : Bool
  pub linger_after_streams_finish : Bool

-- `TCPState::State`
pub data OfficialState : Type 0 where
  listen syn_rcvd syn_sent established close_wait last_ack : OfficialState
  fin_wait_1 fin_wait_2 closing time_wait closed reset : OfficialState

-- The constructor for an official state.
unfoldable pub of_official : OfficialState → TcpState
of_official OfficialState.listen = record {
  receiver = ReceiverSummary.listen;
  sender = SenderSummary.closed;
  active = true;
  linger_after_streams_finish = true;
}
of_official OfficialState.syn_rcvd = record {
  receiver = ReceiverSummary.syn_recv;
  sender = SenderSummary.syn_sent;
  active = true;
  linger_after_streams_finish = true;
}
of_official OfficialState.syn_sent = record {
  receiver = ReceiverSummary.listen;
  sender = SenderSummary.syn_sent;
  active = true;
  linger_after_streams_finish = true;
}
of_official OfficialState.established = record {
  receiver = ReceiverSummary.syn_recv;
  sender = SenderSummary.syn_acked;
  active = true;
  linger_after_streams_finish = true;
}
of_official OfficialState.close_wait = record {
  receiver = ReceiverSummary.fin_recv;
  sender = SenderSummary.syn_acked;
  active = true;
  linger_after_streams_finish = false;
}
of_official OfficialState.last_ack = record {
  receiver = ReceiverSummary.fin_recv;
  sender = SenderSummary.fin_sent;
  active = true;
  linger_after_streams_finish = false;
}
of_official OfficialState.closing = record {
  receiver = ReceiverSummary.fin_recv;
  sender = SenderSummary.fin_sent;
  active = true;
  linger_after_streams_finish = true;
}
of_official OfficialState.fin_wait_1 = record {
  receiver = ReceiverSummary.syn_recv;
  sender = SenderSummary.fin_sent;
  active = true;
  linger_after_streams_finish = true;
}
of_official OfficialState.fin_wait_2 = record {
  receiver = ReceiverSummary.syn_recv;
  sender = SenderSummary.fin_acked;
  active = true;
  linger_after_streams_finish = true;
}
of_official OfficialState.time_wait = record {
  receiver = ReceiverSummary.fin_recv;
  sender = SenderSummary.fin_acked;
  active = true;
  linger_after_streams_finish = true;
}
of_official OfficialState.reset = record {
  receiver = ReceiverSummary.error;
  sender = SenderSummary.error;
  active = false;
  linger_after_streams_finish = false;
}
of_official OfficialState.closed = record {
  receiver = ReceiverSummary.fin_recv;
  sender = SenderSummary.fin_acked;
  active = false;
  linger_after_streams_finish = false;
}

unfoldable pub receiver_summary : Receiver.State → ReceiverSummary
receiver_summary Receiver.State.error = ReceiverSummary.error
receiver_summary Receiver.State.listen = ReceiverSummary.listen
receiver_summary Receiver.State.fin_recv = ReceiverSummary.fin_recv
receiver_summary Receiver.State.syn_recv = ReceiverSummary.syn_recv

unfoldable pub sender_summary : Sender.State → SenderSummary
sender_summary Sender.State.error = SenderSummary.error
sender_summary Sender.State.closed = SenderSummary.closed
sender_summary Sender.State.syn_sent = SenderSummary.syn_sent
sender_summary Sender.State.syn_acked = SenderSummary.syn_acked
sender_summary Sender.State.fin_sent = SenderSummary.fin_sent
sender_summary Sender.State.fin_acked = SenderSummary.fin_acked

-- The constructor for the parts of a connection.
unfoldable pub summarize : TcpSender → TcpReceiver → Bool → Bool → TcpState
summarize sender receiver active linger = record {
  sender = sender_summary (Sender.state sender);
  receiver = receiver_summary (Receiver.state receiver);
  active = active;
  linger_after_streams_finish = active && linger;
}

-- The strings of the summaries, as numbers: equal where the strings are.
abbrev receiver_code : ReceiverSummary → ℕ
receiver_code ReceiverSummary.error = 0
receiver_code ReceiverSummary.listen = 1
receiver_code ReceiverSummary.syn_recv = 2
receiver_code ReceiverSummary.fin_recv = 3

abbrev sender_code : SenderSummary → ℕ
sender_code SenderSummary.error = 0
sender_code SenderSummary.closed = 1
sender_code SenderSummary.syn_sent = 2
sender_code SenderSummary.syn_acked = 3
sender_code SenderSummary.fin_sent = 4
sender_code SenderSummary.fin_acked = 5

abbrev same_flag : Bool → Bool → Bool
same_flag true b = b
same_flag false b = not b

-- `TCPState::operator==`
abbrev pub same_state : TcpState → TcpState → Bool
same_state a b =
    same_flag a.active b.active
    && (same_flag a.linger_after_streams_finish b.linger_after_streams_finish
        && ((sender_code a.sender == sender_code b.sender)
            && (receiver_code a.receiver == receiver_code b.receiver)))
