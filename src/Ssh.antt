-- ===== src/Ssh.antt =====
-- The modules of ssh.py.
pub mod Reaper
pub mod Connection
pub mod Open
pub mod Pool
pub mod Maintenance
