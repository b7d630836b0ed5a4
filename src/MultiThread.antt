-- ===== src/MultiThread.antt =====
-- multithreadIB.c: the ping-pong with one queue pair for each thread.
pub mod Connect
pub mod Context
pub mod Engine
pub mod Pair
pub mod Exchange
pub mod Run
pub mod Launch
pub mod Main
