-- ===== src/Server.antt =====
-- sqelf/src/server: the network side. `Tcp` and `Udp` cut what arrives into frames and hand these to
-- the receiver; `Received` is what they make of its results.
pub mod Received
pub mod Config
pub mod Metrics
pub mod Loop
pub mod Build
pub mod Tcp
pub mod Udp
