-- ===== src/Server/Tcp.antt =====
-- sqelf/src/server/tcp.rs: the TCP side of the server.
pub mod Decode
pub mod Connections
pub mod Timed
pub mod Serving
pub mod Accept
pub mod QuietClose
