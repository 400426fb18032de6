-- ===== src/Socket.antt =====
-- `TCPSpongeSocket` and the adapters that it reads and writes segments through.
pub mod Adapters
pub mod Rules
pub mod Loop
pub mod Tun
pub mod Instances
