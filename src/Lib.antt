-- ===== src/Lib.antt =====
-- A model of the TCP library of this repository (libsponge), from the byte stream up to the endpoint of
-- a connection, and of the formats on the wire.
--
-- An endpoint (TCPConnection) owns a TCPReceiver and a TCPSender. The receiver turns the segments of the
-- peer into substrings for its StreamReassembler, which writes them to a ByteStream in order, and says
-- what to acknowledge. The sender takes the bytes of another ByteStream into segments, keeps those that
-- are not acknowledged, and sends the oldest again when its Timer expires. Both count in absolute 64-bit
-- numbers, which are wrapped to 32 bits on the wire. The connection passes segments and acknowledgments
-- to the two, and puts the receiver's acknowledgment on what the sender gives it. A socket
-- (TCPSpongeSocket) runs a connection: an EventLoop calls its rules, which move segments between the
-- connection and an adapter of datagrams, and bytes between the connection and the application.
--
-- Files, and what they model:
--   Prelude, Cyclic     shared names, tests, lists, machine words; copies into and out of a cyclic buffer
--   ByteStream          libsponge/byte_stream.{hh,cc}: ByteStream, one function per method
--   Wrapping            libsponge/wrapping_integers.{hh,cc}: wrap and unwrap
--   Reassembler         libsponge/stream_reassembler.{hh,cc}: StreamReassembler, with its buffer
--                       (Reassembler/Buffer) and the map of intervals (Reassembler/Intervals)
--   Config, Segment     libsponge/tcp_helpers/tcp_config.hh, tcp_header.hh, tcp_segment.{hh,cc}
--   Sender              libsponge/tcp_sender.{hh,cc}: TCPSender, with Timer in Sender/Clock
--   Receiver            libsponge/tcp_receiver.{hh,cc}: TCPReceiver
--   Connection          libsponge/tcp_connection.{hh,cc}: TCPConnection
--   State               libsponge/tcp_helpers/tcp_state.{hh,cc}: TCPState
--   Wire                libsponge/util/parser.{hh,cc}, InternetChecksum of util/util.cc, and the headers
--                       and messages of libsponge/tcp_helpers: TCP, IPv4, Ethernet, ARP, TCP over IPv4
--   Util                libsponge/util: Buffer, FileDescriptor, UDPSocket with Socket::shutdown, EventLoop
--   Socket              libsponge/tcp_helpers: TCPOverUDPSocketAdapter and LossyFdAdapter (Socket/Adapters),
--                       the rules of TCPSpongeSocket (Socket/Rules), its loop, connect and
--                       listen_and_accept (Socket/Loop), TCPOverIPv4OverTunFdAdapter (Socket/Tun), and the
--                       sockets over UDP and TUN (Socket/Instances)
--   Relay               apps/bidirectional_stream_copy.cc
--   Apps                get_config of apps/tcp_udp.cc, tcp_ipv4.cc and tcp_ip_ethernet.cc (Apps/Options), and
--                       the search for the payload in apps/udp_tcpdump.cc (Apps/Tcpdump)
--   Transfer            a sender and a receiver over an unreliable network, which is a specification:
--                       the calls of Sender and Receiver in any order
--   Tests               concrete runs
--
-- A method that changes an object returns the new object. Bytes, sizes and counters are numbers; size_t
-- and uint64_t wrap at 2^64 (add64, sub64), uint32_t at 2^32 (add32, sub32). A failed assertion or an
-- exception is `none`. A queue is a list, front first, and the std::map of intervals is a list in order.
-- The payload of a segment is the list of the bytes that its Buffer shows. System calls, the clock and
-- the random generators are parameters on a state of the kernel, with what their manual pages say of
-- them as hypotheses.
--
-- Fuel: the loop of fill_window takes one sequence number of the free window at least in each round, and
-- is given one round more than the window has numbers free; the loop of the checksum folds a 32-bit sum
-- to 17 bits in one round and to 16 in the next, and is given three rounds; the loop of
-- FileDescriptor::write takes a byte at least in each round that is not the last. The loop over the
-- extension headers moves eight bytes at least in each round, and that over the options takes an
-- argument; they are given as many rounds as there are bytes or arguments. The loops of the socket
-- and of the relay run as long as the program, and are modelled for any number of rounds. All
-- other loops are recursions over the list that the code walks.
--
-- The theorems on the receiving side suppose segments that end in the window that was advertised, but
-- for one on substrings beyond the capacity, fewer than 2^63 bytes, and a positive capacity. Those on the sending side suppose fewer than 2^63 sequence
-- numbers. A transfer is of less than 2^31 bytes, since an older segment that comes late is then told
-- from a newer one.
--
-- Not modelled: the sharing of storage between buffers, which nothing can see; threads; the TAP
-- device and its adapter, and NetworkInterface, which is a stub; addresses beyond number and port; the
-- methods that only wrap a system call; strings for people to read; the other applications,
-- and the capture and the printing of the packet dump. The
-- initial sequence number is an argument where the code takes it from std::random_device.
pub mod Prelude
pub mod Cyclic
pub mod ByteStream
pub mod Wrapping
pub mod Config
pub mod Segment
pub mod Sender
pub mod Receiver
pub mod Reassembler
pub mod Connection
pub mod State
pub mod Wire
pub mod Util
pub mod Socket
pub mod Relay
pub mod Apps
pub mod Transfer
pub mod Tests
