-- ===== src/Testkit.antt =====
-- The package processkittest: the doubles for the `ProcessRunner` seam, and the cassette.
pub mod Recording
pub mod Scripted
pub mod Cassette
