-- ===== src/Socket/Tun.antt =====
-- `TCPOverIPv4OverTunFdAdapter` of libsponge/tcp_helpers/tuntap_adapter.hh: segments in IPv4 datagrams,
-- read from and written to a TUN device, whose system calls are parameters.
use cs144_labs.Prelude.{ℕ, ◌-◌, ◌^◌, true, Option, none, some, List, [], ◌∷◌, if◌then◌else◌}
use cs144_labs.Segment.{TcpSegment}
use cs144_labs.Wire.Parser.{is_error}
use cs144_labs.Wire.Ip.{Ipv4Datagram, new_header, parse_datagram, serialize_datagram}
use cs144_labs.Wire.Adapter.{Adapter, unwrap_tcp_in_ip, wrap_tcp_in_ip}
use cs144_labs.Util.FileDescriptor
use cs144_labs.Util.FileDescriptor.{FdWrapper, WriteResult, WriteState}

pub record TunAdapter : Type 0 where
  pub base : Adapter
  pub tun : FdWrapper

abbrev new_datagram : Ipv4Datagram
new_datagram = record { header = new_header; payload = [] }

-- What `read` does with the bytes of the device. Outside, `none` means that the fuel of the checksum ran out.
unfoldable pub take_bytes : Adapter → List ℕ → Option (Adapter × Option TcpSegment)
take_bytes a bytes =
    let (dgram, result) = parse_datagram new_datagram bytes in
    let taken = unwrap_tcp_in_ip a dgram in if is_error result then some (a, none) else taken

module _ {K : Type 0} (sys_read : K → FdWrapper → ℕ → K × Option (List ℕ)) where
  -- `none` is an exception of the device.
  unfoldable pub read : TunAdapter → K → K × Option (TunAdapter × Option TcpSegment)
  read a k =
      let (tun, k', got) = FileDescriptor.read sys_read a.tun k (2 ^ 64 - 1) in
      elim got [
        | none ↦ (k', none)
        | some bytes ↦ elim (take_bytes a.base bytes) [
          | none ↦ (k', none)
          | some (base, seg) ↦ (k', some (record { base = base; tun = tun }, seg))
        ]
      ]

-- The adapter after a write, unless it threw.
abbrev after_write : {K : Type 0} → TunAdapter → WriteState K → K × Option TunAdapter
after_write a s = elim s.result [
  | WriteResult.written n ↦ (s.kernel, some (record { base = a.base; tun = s.fd }))
  | WriteResult.thrown ↦ (s.kernel, none)
  | WriteResult.running ↦ (s.kernel, none)
]

module _ {K : Type 0} (sys_writev : K → FdWrapper → List (List ℕ) → K × Option ℕ) where
  -- `none` is an exception of the datagram or of the device.
  unfoldable pub write : TunAdapter → K → TcpSegment → K × Option TunAdapter
  write a k seg = elim (wrap_tcp_in_ip a.base seg) [
    | none ↦ (k, none)
    | some dgram ↦ elim (serialize_datagram dgram) [
      | none ↦ (k, none)
      | some bytes ↦ after_write a (FileDescriptor.write sys_writev a.tun k (bytes ∷ []) true)
    ]
  ]
