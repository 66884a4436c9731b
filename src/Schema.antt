-- ===== src/Schema.antt =====
-- crates/pgt_schema_cache/src and crates/pgt_type_resolver/src: lookups in the schema cache.
pub mod Lookup
pub mod Resolve
pub mod Found
mod Tests
