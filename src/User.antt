-- ===== src/User.antt =====
-- src/user: who is signed in, and who watches whom.
pub mod Registry
