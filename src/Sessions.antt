-- ===== src/Sessions.antt =====
-- The modules of sessions.py.
pub mod Id
pub mod State
pub mod Commands
pub mod Poll
pub mod Manager
pub mod Sentinel
pub mod Prompt
pub mod Slice
