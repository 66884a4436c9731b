-- ===== src/TextSize.antt =====
-- crates/pgt_text_size/src: text offsets (`Size`), text ranges (`Range`) and their laws.
pub mod Size
pub mod Range
pub mod Intersection
pub mod Shifts
mod Tests
