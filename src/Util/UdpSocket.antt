-- ===== src/Util/UdpSocket.antt =====
-- `UDPSocket` of libsponge/util/socket.cc, with the counters of its descriptor. recvfrom(2) and
-- sendmsg(2) are parameters; `none` is a negative result, which `SystemCall` turns into an exception.
use cs144_labs.Prelude.{
  Bool, true, false, Option, none, some, List, ℕ, ltb, ◌==◌, if◌then◌else◌, length,
}
use cs144_labs.Util.FileDescriptor.{FdWrapper, register_read, register_write}
use cs144_labs.Util.Buffer.{view_size}

-- How a socket is shut down: SHUT_RD, SHUT_WR, SHUT_RDWR and any other number.
pub data Shutdown : Type 0 where
  rd wr rdwr invalid : Shutdown

abbrev pub register_shutdown : FdWrapper → Shutdown → Option FdWrapper
register_shutdown f rd = some (register_read f)
register_shutdown f wr = some (register_write f)
register_shutdown f rdwr = some (register_write (register_read f))
register_shutdown f invalid = none

module _ {K : Type 0} (sys_shutdown : K → FdWrapper → Shutdown → K × Bool) where
  -- `Socket::shutdown`
  unfoldable pub shutdown : FdWrapper → K → Shutdown → K × Option FdWrapper
  shutdown f k how =
      let (k', ok) = sys_shutdown k f how in (k', if ok then register_shutdown f how else none)

module _ {K A : Type 0} (sys_recvfrom : K → FdWrapper → ℕ → K × Option (A × List ℕ)) where
  -- `recv` with a buffer of `mtu` bytes. With MSG_TRUNC, recvfrom(2) gives the length of the whole
  -- datagram, so the parameter gives the sender and the whole datagram.
  unfoldable pub recv : FdWrapper → K → ℕ → FdWrapper × K × Option (A × List ℕ)
  recv f k mtu =
      let called = sys_recvfrom k f mtu in
      elim called.1 [
        | none ↦ (f, called.0, none)
        | some (source, payload) ↦
            if ltb mtu (length payload)
            then (f, called.0, none)
            else (register_read f, called.0, some (source, payload))
      ]

module _ {K A : Type 0} (sys_sendmsg : K → FdWrapper → A → List (List ℕ) → K × Option ℕ) where
  -- `sendmsg_helper` and `sendto`; whether they returned without an exception.
  unfoldable pub sendto : FdWrapper → K → A → List (List ℕ) → FdWrapper × K × Bool
  sendto f k destination payload =
      let called = sys_sendmsg k f destination payload in
      elim called.1 [
        | none ↦ (f, called.0, false)
        | some bytes_sent ↦
            if bytes_sent == view_size payload
            then (register_write f, called.0, true)
            else (f, called.0, false)
      ]
