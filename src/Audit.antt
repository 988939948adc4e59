-- ===== src/Audit.antt =====
-- src/audit: the hash-chained event log and the compliance rules over it.
pub mod Log
pub mod Compliance
