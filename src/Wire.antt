-- ===== src/Wire.antt =====
-- The formats on the wire: libsponge/util/parser.{hh,cc}, the checksum of util/util.cc, and the headers
-- and messages of libsponge/tcp_helpers. A `Buffer` or `BufferList` is the bytes that it shows.
pub mod Parser
pub mod Checksum
pub mod Tcp
pub mod Ip
pub mod Ethernet
pub mod Arp
pub mod Adapter
pub mod Reading
pub mod Roundtrip
pub mod Complement
pub mod Weight
pub mod Segments
pub mod Messages
pub mod Headers
pub mod Datagrams
pub mod Frames
