-- ===== src/Completions.antt =====
-- crates/pgt_completions/src: the completions at a cursor.
pub mod Data
pub mod Score
pub mod Filter
pub mod Builder
pub mod Sanitize
pub mod Order
pub mod Ordered
pub mod Ranked
pub mod Schemas
pub mod SortTexts
pub mod Sanitized
pub mod Providers
pub mod Complete
mod Tests
