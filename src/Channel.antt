-- ===== src/Channel.antt =====
-- src/channel/: the channels of the node.
pub mod Types
pub mod Users
pub mod State
pub mod Fanout
pub mod Registry
pub mod Kind
pub mod Cache
pub mod Examples
