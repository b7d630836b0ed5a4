-- ===== src/Tcp.antt =====
-- The TCP benchmark: the socket classes, the two clients and the two servers.
pub mod Stream
pub mod Acceptor
pub mod Connector
pub mod Message
pub mod Client
pub mod Rounds
pub mod ThreadServer
pub mod StreamServer
