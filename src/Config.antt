-- ===== src/Config.antt =====
-- The modules of config.py.
pub mod Node
pub mod Forbidden
pub mod Entry
pub mod File
