-- ===== src/Core/V5/Refines.antt =====
-- The code of `fn6` for one block against the block step of FIPS 180-4.
pub mod Words
pub mod Schedule
pub mod Switch
pub mod Early
pub mod Parity
pub mod Majority
pub mod Late
