-- ===== src/Tests.antt =====
-- The theorems at concrete inputs, and runs of the programs there.
pub mod Inputs
pub mod PingPong
pub mod Addresses
pub mod Rows
pub mod Connections
pub mod Rounds
pub mod Streams
pub mod Tcp
pub mod Mains
pub mod StreamPair
pub mod Drafts
