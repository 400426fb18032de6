-- ===== src/Apps.antt =====
-- The programs of apps/ that have logic of their own, besides bidirectional_stream_copy.cc (Relay).
pub mod Tcpdump
pub mod Options
