-- ===== src/Tests.antt =====
-- Runs of the theorems at concrete inputs.
pub mod Fixtures
pub mod Output
pub mod Manager
pub mod Server
pub mod Transfer
pub mod Sweep
pub mod Tail
pub mod Hosts
pub mod Records
