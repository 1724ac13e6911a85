-- ===== src/Io.antt =====
-- src/io: what happens to a candidate before and when it reaches the disk.
pub mod Verifier
pub mod KeyWriter
pub mod Tests
