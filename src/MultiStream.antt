-- ===== src/MultiStream.antt =====
-- multistreamTestRunner.c: the ping-pong with several queue pairs on one thread.
pub mod Connect
pub mod Context
pub mod Engine
pub mod Run
pub mod Main
pub mod Pair
