-- ===== src/Transport.antt =====
-- src/transport/: the per-core transport.
pub mod Timer
pub mod Frame
pub mod Sink
