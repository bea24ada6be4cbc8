-- ===== src/Tests.antt =====
-- Runs of the theorems at concrete inputs, on a small platform.
pub mod Samples
pub mod Runs
pub mod Steps
pub mod Data
pub mod Hardware
pub mod Host
pub mod Flags
