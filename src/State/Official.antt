-- ===== src/State/Official.antt =====
-- The official states and the summaries of connections.
use cs144_labs.Prelude.{ℕ, ◌≡◌, refl, sym, ap, ◌∙◌, Bool, true, false, Option, none, some, some_inj}
use cs144_labs.Config.{TcpConfig}
use cs144_labs.Segment.{TcpSegment}
use cs144_labs.ByteStream
use cs144_labs.Reassembler
use cs144_labs.Receiver
use cs144_labs.Sender
use cs144_labs.Connection.{TcpConnection, new, is_ignored, segment_received}
use cs144_labs.Connection.Handling.{rst_kills}
use cs144_labs.Connection.Ticking.{Aborted}
use cs144_labs.State.{
  ReceiverSummary, SenderSummary, TcpState, OfficialState, of_official, receiver_summary,
  sender_summary, summarize,
}

-- `TCPConnection::state()`
abbrev pub state_of : TcpConnection → TcpState
state_of c = summarize c.sender c.receiver c.active c.linger_after_stream_finish

-- The official state that two summaries and the two flags name.
abbrev named : ReceiverSummary → SenderSummary → Bool → Bool → Option OfficialState
named ReceiverSummary.listen SenderSummary.closed true true = some OfficialState.listen
named ReceiverSummary.syn_recv SenderSummary.syn_sent true true = some OfficialState.syn_rcvd
named ReceiverSummary.listen SenderSummary.syn_sent true true = some OfficialState.syn_sent
named ReceiverSummary.syn_recv SenderSummary.syn_acked true true = some OfficialState.established
named ReceiverSummary.fin_recv SenderSummary.syn_acked true false = some OfficialState.close_wait
named ReceiverSummary.fin_recv SenderSummary.fin_sent true false = some OfficialState.last_ack
named ReceiverSummary.fin_recv SenderSummary.fin_sent true true = some OfficialState.closing
named ReceiverSummary.syn_recv SenderSummary.fin_sent true true = some OfficialState.fin_wait_1
named ReceiverSummary.syn_recv SenderSummary.fin_acked true true = some OfficialState.fin_wait_2
named ReceiverSummary.fin_recv SenderSummary.fin_acked true true = some OfficialState.time_wait
named ReceiverSummary.error SenderSummary.error false false = some OfficialState.reset
named ReceiverSummary.fin_recv SenderSummary.fin_acked false false = some OfficialState.closed
named _ _ _ _ = none

abbrev name_of : TcpState → Option OfficialState
name_of t = named t.receiver t.sender t.active t.linger_after_streams_finish

name_of-of_official : (st : OfficialState) → name_of (of_official st) ≡ some st
unfolding of_official
name_of-of_official OfficialState.listen = refl
name_of-of_official OfficialState.syn_rcvd = refl
name_of-of_official OfficialState.syn_sent = refl
name_of-of_official OfficialState.established = refl
name_of-of_official OfficialState.close_wait = refl
name_of-of_official OfficialState.last_ack = refl
name_of-of_official OfficialState.fin_wait_1 = refl
name_of-of_official OfficialState.fin_wait_2 = refl
name_of-of_official OfficialState.closing = refl
name_of-of_official OfficialState.time_wait = refl
name_of-of_official OfficialState.closed = refl
name_of-of_official OfficialState.reset = refl

-- No two official states have the same summary.
pub of_official_inj : (st st' : OfficialState) → of_official st ≡ of_official st' → st ≡ st'
of_official_inj st st' h =
    some_inj (sym (name_of-of_official st) ∙ ap name_of h ∙ name_of-of_official st')

-- A new connection is in the state LISTEN.
pub state_of-new :
    (cfg : TcpConfig) (random_isn : ℕ)
    → state_of (new cfg random_isn) ≡ of_official OfficialState.listen
unfolding new Receiver.new Sender.new Reassembler.new ByteStream.new summarize of_official
    Receiver.state Sender.state receiver_summary sender_summary
state_of-new cfg random_isn = refl

-- A connection that is given up, and one that has had a RST it does not ignore, are in the state RESET.
pub state_of-Aborted :
    (c c' : TcpConnection) → Aborted c c' → state_of c' ≡ of_official OfficialState.reset
unfolding summarize of_official receiver_summary sender_summary
state_of-Aborted c c' a = rw (a.sender_error, a.receiver_error, a.inactive) refl

pub state_of-rst :
    (c : TcpConnection) (seg : TcpSegment)
    → is_ignored c seg ≡ false
    → seg.header.rst ≡ true
    → (c' : TcpConnection) × (segment_received c seg ≡ some c')
      × (state_of c' ≡ of_official OfficialState.reset)
unfolding summarize of_official receiver_summary sender_summary
state_of-rst c seg e f =
    let (c', run, inactive, no_linger, receiver_error, sender_error, _, _) = rst_kills c seg e f in
    (c', run, rw (sender_error, receiver_error, inactive) refl)
