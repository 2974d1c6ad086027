-- ===== src/Tests/Unit.antt =====
-- The unit tests of the source, run on the model.
mod Receive
mod Clef
mod Process
