-- ===== src/Analyser.antt =====
-- The selection of the analyser's rules: crates/pgt_analyse/src and server/analyser.rs.
pub mod Filter
pub mod Visitor
pub mod Selected
pub mod Runs
pub mod Registered
mod Tests
