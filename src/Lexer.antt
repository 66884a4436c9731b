-- ===== src/Lexer.antt =====
-- crates/pgt_lexer/src: the tokens of a text, from the scan of libpg_query and the white space.
pub mod Scanned
pub mod Merge
pub mod Slices
pub mod Inputs
pub mod Built
pub mod Merged
pub mod Lossless
pub mod Sample
mod Tests
