-- ===== src/Socket/Adapters.antt =====
-- `FdAdapterConfig` of libsponge/tcp_helpers/tcp_config.hh, `FdAdapterBase` and
-- `TCPOverUDPSocketAdapter` of fd_adapter.{hh,cc}, and `LossyFdAdapter` of lossy_fd_adapter.hh. The
-- system calls and the random generator are parameters.
use cs144_labs.Prelude.{
  ℕ, ◌%◌, ◌^◌, Bool, true, false, not, ◌&&◌, Option, none, some, List, [], ◌∷◌, ltb, ◌==◌,
  if◌then◌else◌,
}
use cs144_labs.Segment.{TcpSegment, new_segment}
use cs144_labs.Wire.Parser.{is_error}
use cs144_labs.Wire.Tcp.{parse_segment, serialize_segment}
use cs144_labs.Wire.Adapter.{Address}
use cs144_labs.Util.FileDescriptor.{FdWrapper}
use cs144_labs.Util.UdpSocket.{recv, sendto}

pub record FdAdapterConfig : Type 0 where
  pub source : Address
  pub destination : Address
  pub loss_rate_dn : ℕ
  pub loss_rate_up : ℕ

-- `FdAdapterBase`
pub record FdAdapter : Type 0 where
  pub cfg : FdAdapterConfig
  pub listening : Bool

-- `Address::operator==`
abbrev pub same_address : Address → Address → Bool
same_address a b = (a.ipv4_numeric == b.ipv4_numeric) && (a.port == b.port)

-- The adapter that has taken the address of the first SYN.
abbrev pub target : FdAdapter → Address → FdAdapter
target a from = record { cfg = record a.cfg { destination = from }; listening = false }

-- What `read` does with a segment that was parsed.
abbrev pub take_segment : FdAdapter → Address → TcpSegment → FdAdapter × Option TcpSegment
take_segment a from seg =
    if a.listening
    then (if seg.header.syn && not seg.header.rst then (target a from, some seg) else (a, none))
    else (a, some seg)

-- What `read` does with a datagram. Outside, `none` means that the fuel of the checksum ran out.
unfoldable pub take_datagram : FdAdapter → Address → List ℕ → Option (FdAdapter × Option TcpSegment)
take_datagram a from payload =
    let parsed : Option (FdAdapter × Option TcpSegment) =
      elim (parse_segment new_segment payload 0) [
        | none ↦ none
        | some (seg, result) ↦ some (if is_error result then (a, none) else take_segment a from seg)
      ] in
    if not a.listening && not (same_address from a.cfg.destination) then some (a, none) else parsed

-- The segment with the ports of the adapter.
abbrev pub with_ports : FdAdapter → TcpSegment → TcpSegment
with_ports a seg = record seg {
  header = record seg.header { sport = a.cfg.source.port; dport = a.cfg.destination.port };
}

-- The adapter over UDP: its base, and its socket.
pub record UdpAdapter : Type 0 where
  pub base : FdAdapter
  pub sock : FdWrapper

module _ {K : Type 0} (sys_recvfrom : K → FdWrapper → ℕ → K × Option (Address × List ℕ)) where
  -- `TCPOverUDPSocketAdapter::read`; `none` is an exception of `recv`.
  unfoldable pub read : UdpAdapter → K → K × Option (UdpAdapter × Option TcpSegment)
  read a k =
      let (sock, k', received) = recv sys_recvfrom a.sock k 65536 in
      elim received [
        | none ↦ (k', none)
        | some (from, payload) ↦ elim (take_datagram a.base from payload) [
          | none ↦ (k', none)
          | some (base, seg) ↦ (k', some (record { base = base; sock = sock }, seg))
        ]
      ]

module _ {K : Type 0} (sys_sendmsg : K → FdWrapper → Address → List (List ℕ) → K × Option ℕ) where
  -- `TCPOverUDPSocketAdapter::write`; `none` is an exception of `serialize` or `sendto`. The views of the
  -- serialized segment are given as one.
  unfoldable pub write : UdpAdapter → K → TcpSegment → K × Option UdpAdapter
  write a k seg = elim (serialize_segment (with_ports a.base seg) 0) [
    | none ↦ (k, none)
    | some bytes ↦
        let (sock, k', sent) = sendto sys_sendmsg a.sock k a.base.cfg.destination (bytes ∷ []) in
        (k', if sent then some (record { base = a.base; sock = sock }) else none)
  ]

-- `LossyFdAdapter`: the generator and the adapter below.
pub record LossyFdAdapter (R A : Type 0) : Type 0 where
  pub rand : R
  pub adapter : A

module _ {R A : Type 0} (next_random : R → R × ℕ) (config : A → FdAdapterConfig) where
  -- `_should_drop`: the generator is not asked where nothing is to be lost.
  unfoldable pub should_drop : LossyFdAdapter R A → Bool → R × Bool
  should_drop l uplink =
      let loss =
        if uplink then (config l.adapter).loss_rate_up else (config l.adapter).loss_rate_dn in
      let (rand, number) = next_random l.rand in
      if loss == 0 then (l.rand, false) else (rand, ltb (number % 2 ^ 16) loss)

  -- `LossyFdAdapter::read`, on the adapter and the segment that the read below has given.
  unfoldable pub lossy_read :
      LossyFdAdapter R A → A × Option TcpSegment → LossyFdAdapter R A × Option TcpSegment
  lossy_read l (adapter, seg) =
      let (rand, dropped) = should_drop (record l { adapter = adapter }) false in
      (record { rand = rand; adapter = adapter }, if dropped then none else seg)

  -- `LossyFdAdapter::write`, on the write below; `none` is its exception.
  unfoldable pub lossy_write :
      (A → TcpSegment → Option A) → LossyFdAdapter R A → TcpSegment → Option (LossyFdAdapter R A)
  lossy_write write_below l seg =
      let (rand, dropped) = should_drop l true in
      let sent : Option (LossyFdAdapter R A) = elim (write_below l.adapter seg) [
        | none ↦ none
        | some adapter ↦ some (record { rand = rand; adapter = adapter })
      ] in
      if dropped then some (record l { rand = rand }) else sent
