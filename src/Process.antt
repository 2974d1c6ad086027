-- ===== src/Process.antt =====
-- sqelf/src/process: GELF messages made into CLEF events.
pub mod Json
pub mod Clef
pub mod Gelf
pub mod ToClef
pub mod Str
pub mod Run
