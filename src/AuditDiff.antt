-- ===== src/AuditDiff.antt =====
-- src/lib/utils/diff.ts: what an audit log entry says of a change. A value is a tree; a number stands by a
-- natural, and NaN, functions and cycles do not occur in what is logged.
pub mod Values
pub mod Compare
pub mod Diff
pub mod Secrets
mod Tests
