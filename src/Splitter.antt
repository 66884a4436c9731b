-- ===== src/Splitter.antt =====
-- crates/pgt_statement_splitter/src: a token list is cut into statements.
pub mod Kind
pub mod Token
pub mod Parser
pub mod Grammar
pub mod Scan
pub mod Moves
pub mod Brackets
pub mod Cases
pub mod Commands
pub mod Unknown
pub mod Statements
pub mod Ranges
pub mod Closing
pub mod Between
pub mod Source
pub mod Bytes
pub mod Split
pub mod Whole
pub mod Hangs
mod Tests
