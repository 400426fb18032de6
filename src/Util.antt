-- ===== src/Util.antt =====
-- libsponge/util: strings of several parts, file descriptors, datagram sockets and the event loop.
pub mod Buffer
pub mod FileDescriptor
pub mod UdpSocket
pub mod EventLoop
