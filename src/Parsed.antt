-- ===== src/Parsed.antt =====
-- crates/pgt_workspace/src/workspace/server: the stores beside a document, and the parsed document.
pub mod Store
pub mod Find
pub mod PgQuery
pub mod SqlFunction
pub mod Annotation
pub mod Edit
pub mod TreeSitter
pub mod State
pub mod Filters
pub mod Iterate
pub mod Mappers
pub mod Collected
pub mod Described
pub mod Flattened
pub mod Keys
pub mod Held
pub mod Reads
pub mod Iterated
pub mod Bodies
pub mod Scans
pub mod Edits
pub mod Caches
mod Tests
