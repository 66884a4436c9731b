-- ===== src/Document.antt =====
-- crates/pgt_workspace/src/workspace/server: the open document, its statements and its changes.
pub mod Id
pub mod Content
pub mod Params
pub mod State
pub mod Affected
pub mod Change
pub mod Apply
pub mod View
pub mod Steps
pub mod Tracking
pub mod Mirror
pub mod Reports
pub mod History
pub mod Reset
mod Tests
