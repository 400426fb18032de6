-- ===== src/Tests.antt =====
-- Concrete runs of the components, and one instance of each theorem that has conditions.
pub mod Streams
pub mod Endpoints
pub mod Connections
pub mod Formats
pub mod Utilities
pub mod Sockets
pub mod Transfers
pub mod Programs
