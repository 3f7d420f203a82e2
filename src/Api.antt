-- ===== src/Api.antt =====
-- The package's functions, on an acquired instance.
pub mod Inspect
pub mod Sql
pub mod Generate
pub mod Batch
pub mod Mixed
pub mod Name
pub mod Now
pub mod Version
