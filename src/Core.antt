-- ===== src/Core.antt =====
-- go/internal/core/core.go
pub mod Inspect
pub mod Sql
pub mod Module
pub mod Stream
pub mod V4
pub mod V7
pub mod V5
