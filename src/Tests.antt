-- ===== src/Tests.antt =====
-- Concrete runs of the modelled package, and the theorems applied to them.
mod Source
mod Generation
mod Batches
mod Randomness
mod Pooling
mod Conversion
mod Naming
mod Inspection
