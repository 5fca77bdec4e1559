-- ===== src/Str.antt =====
-- The parts of Python's `str` and `bytes` that the program uses.
pub mod Chars
pub mod Lines
pub mod Path
pub mod Dates
pub mod Utf8
