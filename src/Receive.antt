-- ===== src/Receive.antt =====
-- sqelf/src/receive.rs: the decoder that puts GELF messages together from their chunks. Each child
-- is one part of that file; the children of `Gelf` and `Reader` prove what those parts promise.
pub mod Outcome
pub mod Time
pub mod Compression
pub mod Header
pub mod Message
pub mod Chunks
pub mod Gelf
pub mod Reader
pub mod Contents
pub mod Readable
