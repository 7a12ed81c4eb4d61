-- ===== src/Maps.antt =====
-- The standard library's maps as association lists.
pub mod Assoc
pub mod BTree
pub mod Shards
