-- ===== src/Store.antt =====
-- recovery-orchestrator/internal/store: the database, its statements and its queries.
pub mod Tables
pub mod Rows
pub mod Shared
pub mod Schedule
pub mod Statements
pub mod Assign
pub mod Outcome
pub mod Reports
pub mod Opening
