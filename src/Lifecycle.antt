-- ===== src/Lifecycle.antt =====
-- The life of a recovery session, as the comment on `recovery_sessions.status` in store/schema.sql
-- and the stopping rules describe it: the moves that a row may make, and tables that grow by them.
pub mod Moves
pub mod Tables
pub mod Uniqueness
pub mod Histories
pub mod Worlds
pub mod Statements
pub mod Assign
pub mod Updates
pub mod Outcome
pub mod Requests
