-- ===== src/PackFile.antt =====
-- crates/unpack_core/src/cache/pack_file.rs: the records that the persistent cache stores, and the
-- byte format they are stored in.
pub mod Coder
pub mod Dto
pub mod Written
pub mod Snapshot
pub mod Resolve
pub mod Parsed
pub mod Refused
pub mod RoundTrip
pub mod Build
pub mod Ranges
mod Tests
