-- ===== src/Lsp.antt =====
-- crates/pgt_lsp/src/adapters: offsets of a text and positions of the protocol.
pub mod LineIndex
pub mod Positions
pub mod Starts
pub mod Walks
pub mod Lines
mod Tests
