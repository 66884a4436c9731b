-- ===== src/Migration.antt =====
-- crates/pgt_workspace/src/workspace/server/migration.rs: the files of a migrations directory.
pub mod Name
pub mod Reads
mod Tests
