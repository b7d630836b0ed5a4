-- ===== src/Wire.antt =====
-- The address that the two ends of a queue pair exchange over TCP, and its text on the wire.
pub mod Hex
pub mod Gid
pub mod Dest
