-- ===== src/Webhook.antt =====
-- src/webhook: what an app's server is told.
pub mod Event
pub mod Dispatcher
pub mod Flush
pub mod Delivered
pub mod Occupancy
pub mod Grace
pub mod Examples
