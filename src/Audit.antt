-- ===== src/Audit.antt =====
-- audit.py: the values of a record, the scrubbing of secrets, records, and the files of the log.
pub mod Sweep
pub mod Failures
pub mod Value
pub mod Redact
pub mod Record
pub mod Files
