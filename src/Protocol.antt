-- ===== src/Protocol.antt =====
-- src/protocol/: what a connection is told and how it is named.
pub mod Event
pub mod SocketId
pub mod Text
pub mod Json
pub mod Command
pub mod Negotiate
